-- ===== src/Leader.antt =====
-- src/leader/leader_node.cpp: the leader, which gathers a request's records from its children and
-- hands them to the client page by page.
pub mod Pages
pub mod Queue
pub mod Handler
