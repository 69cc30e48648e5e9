-- ===== src/Tests.antt =====
-- The unit tests of src/, run on the models.
mod ServerMessages
mod Inbound
mod Transfer
mod Wordlist
