-- ===== src/Tests.antt =====
-- Runs of the model on small inputs, and the theorems at inputs that meet their hypotheses.
mod Samples
mod Parsing
mod Dealing
mod Trees
mod Fetching
mod Serving
mod Wiring
mod Querying
mod Queueing
mod Paging
mod Teams
mod Racing
mod Downloading
mod Deploying
mod Reporting
mod Listing
mod Drawing
