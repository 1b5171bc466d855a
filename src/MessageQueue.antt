-- ===== src/MessageQueue.antt =====
-- src/message_queue.cpp: the intrusive queue of event messages with many producers and one consumer.
pub mod Nodes
pub mod Chain
pub mod Shape
pub mod Fifo
pub mod Interleaving
pub mod Safety
pub mod Service
