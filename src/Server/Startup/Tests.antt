-- ===== src/Server/Startup/Tests.antt =====
-- The start of the server at a concrete environment.
use space_captain.Common.{◌≡◌, false, none, some, refl}
use space_captain.Server.Startup.{local_paths, choose_paths}

one_path_set : choose_paths (λ path. false) (some "server.crt") none ≡ local_paths
unfolding choose_paths
one_path_set = refl
