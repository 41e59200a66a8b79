-- ===== src/PermissionDrive/Examples.antt =====
-- The permission wrapper at a drive that counts its changes.
use solocoder_6069_go_drive.Common.{true, false, List, [], ◌∷◌, ◌≡◌, ◌⊎◌}
use solocoder_6069_go_drive.Drive.Counting.{entry_at, counting}
use solocoder_6069_go_drive.Drive.{Entry}
use solocoder_6069_go_drive.Permission.{PathPermission, policy_accept, policy_reject, any_subject}
use solocoder_6069_go_drive.PermMap.{new_perm_map}
use solocoder_6069_go_drive.Drive.Change.{Change, move_entry, change}
use solocoder_6069_go_drive.PermissionDrive.{permission_drive}
use solocoder_6069_go_drive.PermissionDrive.Changes.{IsPermitted, change-guarded}

-- Everybody may read and write, but not what is at b.
abbrev rows : List PathPermission
rows =
    record { path = []; subject = any_subject; permission = 3; policy = policy_accept }
    ∷ record { path = b'b' ∷ []; subject = any_subject; permission = 3; policy = policy_reject }
    ∷ []

abbrev to_c : Change Unit Unit
to_c = move_entry (entry_at (b'b' ∷ [])) (b'c' ∷ []) true

change-guarded_example :
    (IsPermitted (new_perm_map rows) to_c
      × (change (permission_drive counting (new_perm_map rows)) to_c 4 ≡ change counting to_c 4))
    ⊎ ((IsPermitted (new_perm_map rows) to_c → ⊥)
        × (change (permission_drive counting (new_perm_map rows)) to_c 4 ≡ (false, 4)))
change-guarded_example = change-guarded counting (new_perm_map rows) to_c 4

abbrev listed : List Entry
listed = entry_at (b'a' ∷ []) ∷ entry_at (b'b' ∷ []) ∷ []
