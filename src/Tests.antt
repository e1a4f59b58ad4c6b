-- ===== src/Tests.antt =====
-- Runs of the model on concrete inputs.
mod Toy
mod Reader
mod Publisher
mod Composing
mod Finalizing
mod Generic
mod Indexing
mod Verifying
