-- ===== src/LoadBalancing.antt =====
-- src/rosy/node/loadbalancing.py and node/topology.py: which nodes get a message.
pub mod Balancers
pub mod Recent
