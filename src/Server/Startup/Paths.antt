-- ===== src/Server/Startup/Paths.antt =====
-- Which certificate and key the server takes.
use space_captain.Common.{◌≡◌, ◌⊎◌, Bool, true, false, ◌&&◌, Option, none, some, String, arith}
use space_captain.Server.Startup.{default_paths, local_paths, path_or, is_set, choose_paths}

-- Main takes the paths of the two environment variables, with a default in the place of one that
-- is not set, if both are set, without a look at the files, or if both files are there; else, that
-- is if one of the variables is not set and one of the two files is not there, it takes both paths
-- of the local directory, even in the place of a variable that is set.
choose_paths_lem :
    (exists : String → Bool) (crt key : Option String)
    → let wanted : String × String = (path_or default_paths.0 crt, path_or default_paths.1 key) in
      let paths = choose_paths exists crt key in
      ((paths ≡ wanted)
        × ((is_set crt && is_set key ≡ true) ⊎ ((exists paths.0 ≡ true) × (exists paths.1 ≡ true))))
      ⊎ ((paths ≡ local_paths)
          × (is_set crt && is_set key ≡ false)
          × ((exists (path_or default_paths.0 crt) ≡ false)
              ⊎ (exists (path_or default_paths.1 key) ≡ false)))
unfolding choose_paths
choose_paths_lem exists none key = ground arith
choose_paths_lem exists (some c) none = ground arith
choose_paths_lem exists (some c) (some k) = ground arith
