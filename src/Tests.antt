-- ===== src/Tests.antt =====
-- Runs of the development's definitions on small inputs: tests, and the theorems at these inputs.
mod Queue
mod Judging
mod Workers
mod Reading
mod Serving
mod Requests
mod Signing
mod Guarding
mod JsonTrees
mod Catalogues
mod Administrators
