-- ===== src/Tests/Moves.antt =====
-- The move of a directory.
use asset_core.Shared.{◌≡◌, refl, none, some}
use asset_core.Sdk.Tools.{moved_uri, directory}
use asset_core.Sdk.Tools.Prefix.{moved_uri_back}

rock_moves : moved_uri "//depot/" "//vault/" "//depot/rock" ≡ some "//vault/rock"
unfolding moved_uri
rock_moves = refl

-- a directory whose name only starts alike
rock_stays : moved_uri (directory "//depot/ro") "//vault/" "//depot/rock" ≡ none
unfolding moved_uri directory
rock_stays = refl

moved_uri_back_example : moved_uri "//vault/" "//depot/" "//vault/rock" ≡ some "//depot/rock"
moved_uri_back_example =
    moved_uri_back "//depot/" "//vault/" "//depot/rock" "//vault/rock" rock_moves
