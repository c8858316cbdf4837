-- ===== src/Tests.antt =====
-- Concrete inputs: the theorems at objects that can be followed by hand, and runs of the code.
mod World
mod Cli
mod Program
mod Config
mod Assembly
mod Pool
mod Vain
mod Memory
mod Isolation
mod Living
mod Middlewares
mod Sources
mod Serving
