-- ===== src/Tests.antt =====
-- Runs of the model at concrete inputs. The children have the messages, the tables and the helpers.
mod Samples
mod Messages
mod Limits
mod Pursuit
mod Contacts
mod File
mod Dump
mod Helpers
mod Program
mod Serving
mod Starting
mod Queries
