-- ===== src/Tests.antt =====
-- Tests of the definitions on small inputs, and an instance of each result at an input that meets its
-- hypotheses.
mod Events
mod Delivery
mod Limits
mod Service
mod Store
mod Open
mod Runs
mod Policies
mod Tabs
mod Agent
mod Apply
mod Convert
mod Jobs
mod Runtime
mod Scan
mod Threads
mod Ledger
