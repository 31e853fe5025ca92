-- ===== src/Tests.antt =====
-- Small boards and runs, and each theorem at one of them.
mod Scene
mod RuleTests
mod EngineTests
mod ControlTests
mod ClientTests
mod LobbyTests
mod EventTests
pub mod ServerTests
mod TextTests
mod NetworkTests
mod ConsoleTests
mod GraphicsTests
