-- ===== src/Binding/Tests.antt =====
-- A store of bindings in memory, its laws, and the theorems of the service at concrete inputs.
mod Fixture
mod Service
