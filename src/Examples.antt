-- ===== src/Examples.antt =====
-- The theorems at concrete inputs.
mod CheckTests
mod NodeTests
pub mod ToyKey
pub mod Toy
pub mod ToyRedis
pub mod ToyFloat
pub mod ToyTopic
pub mod Tests
pub mod AgentTests
pub mod ExecutorTests
pub mod StoreTests
pub mod StartTests
mod LoadTests
mod BrokerTests
mod LifeTests
