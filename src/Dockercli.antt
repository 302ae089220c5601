-- ===== src/Dockercli.antt =====
-- internal/dockercli: the state that the client keeps between its calls.
pub mod Cache
