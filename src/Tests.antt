-- ===== src/Tests.antt =====
-- Runs of the model at fixed inputs, and the theorems at inputs that meet their hypotheses.
mod Fixtures
mod LayoutTests
mod SyscallTests
mod MemoryTests
mod InitTests
mod ConvertTests
mod DriverTests
mod BootTests
mod ProgramTests
mod Hw2Tests
mod StructTests
mod StatusTests
mod LoopTests
