-- ===== src/Rabbit.antt =====
-- common/cloudrm/rabbit.py: the topology, the publisher's messages, and the consumer with its
-- retries and its dead-letter queue.
pub mod Push
pub mod Settings
pub mod Topology
pub mod Message
pub mod Consumer
pub mod Retries
pub mod Settlement
pub mod Bindings
pub mod Routing
pub mod Subscribed
pub mod Connect
