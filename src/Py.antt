-- ===== src/Py.antt =====
-- What the program uses of Python: values with their operations, exceptions, pure code that may
-- raise, and methods that change an object and may raise.
pub mod Value
pub mod Equal
pub mod Error
pub mod Result
pub mod Ops
pub mod Exec
