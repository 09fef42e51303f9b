-- ===== src/Examples.antt =====
-- Concrete runs of the models.
mod Store
mod Goals
mod Plans
mod Policies
mod Conversations
mod Turns
mod Outbox
mod Texts
mod Histories
