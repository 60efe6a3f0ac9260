-- ===== src/Local/Tests.antt =====
-- The local games on small inputs.
use galaxy_integration_steam.Prelude.{
  ◌≡◌, refl, Bool, true, false, not, ◌&&◌, ◌||◌, List, [], ◌∷◌, ◌++◌, none, some, arith, Result, ok,
  ◌↔◌,
}
use galaxy_integration_steam.Prelude.Keys.{Eq, nat_eq}
use galaxy_integration_steam.Prelude.Text.{Text, codes, list_eq}
use galaxy_integration_steam.Prelude.Dict.{Dict, get}
use galaxy_integration_steam.UserInfo.Decimal.{str}
use galaxy_integration_steam.Local.Defs.{
  LocalGameStates, IsFlags, LocalGame, RegistryValue, number, put_all, state_dict,
  get_state_changes, removed_games, added_games, changed_games, entry_state, is_on,
}
use galaxy_integration_steam.Local.Changes.{
  shown, shown-get_state_changes, get_state_changes-nil_iff,
}
use galaxy_integration_steam.Local.Folders.{
  Vdf, text, node, nil, entry, ClientError, Machine, windows, item, folder_path, read_folders,
  local_games_list, app_id_from_manifest_path,
}
use galaxy_integration_steam.Local.Library.{IsReadAs, read_folders-IsReadAs}
use galaxy_integration_steam.Local.Manifests.{manifest_name, app_id-manifest_name}

-- The flags as two Booleans.
pub record Flags : Type 0 where
  pub runs : Bool
  pub is_there : Bool

abbrev bool_beq : Bool → Bool → Bool
bool_beq true b = b
bool_beq false b = not b

abbrev pub flags_beq : Flags → Flags → Bool
flags_beq a b = bool_beq a.runs b.runs && bool_beq a.is_there b.is_there

pub flags_beq_iff : (a b : Flags) → (flags_beq a b ≡ true) ↔ (a ≡ b)
flags_beq_iff a b = ground arith

instance abbrev pub flags_eq : Eq Flags
flags_eq = record { beq = flags_beq; beq_iff = flags_beq_iff }

abbrev flag : Bool → Bool → Flags
flag r i = record { runs = r; is_there = i }

abbrev pub two_flags : LocalGameStates Flags
two_flags = record {
  none_ = flag false false;
  running = flag true false;
  installed = flag false true;
  union = λ a b. flag (a.runs || b.runs) (a.is_there || b.is_there);
  includes = λ s f. (not f.runs || s.runs) && (not f.is_there || s.is_there);
}

two_flags-IsFlags : IsFlags two_flags
two_flags-IsFlags = record {
  none_running = refl;
  none_installed = refl;
  running_running = λ s. ground arith;
  running_installed = λ s. ground arith;
  installed_running = λ s. ground arith;
  installed_installed = λ s. ground arith;
}

abbrev pub game : Text → Bool → Bool → LocalGame Flags
game i r t = record { game_id = i; local_game_state = flag r t }

abbrev pub before : List (LocalGame Flags)
before = game (codes "570") false true ∷ game (codes "440") true true ∷ []

abbrev pub after : List (LocalGame Flags)
after = game (codes "570") true true ∷ game (codes "620") false true ∷ []

changes_run :
    get_state_changes two_flags before after
    ≡ game (codes "440") false false
      ∷ game (codes "620") false true
      ∷ game (codes "570") true true
      ∷ []
unfolding get_state_changes removed_games added_games changed_games
changes_run = refl

shown-get_state_changes_example :
    shown two_flags
      (get (codes "570") (put_all (get_state_changes two_flags before after) (state_dict before)))
    ≡ shown two_flags (get (codes "570") (state_dict after))
shown-get_state_changes_example =
    shown-get_state_changes two_flags before after (state_dict before) (λ i. refl) (codes "570")

get_state_changes-nil_iff_example :
    (get_state_changes two_flags before before ≡ [])
    ↔ ((i : Text) → get i (state_dict before) ≡ get i (state_dict before))
get_state_changes-nil_iff_example = get_state_changes-nil_iff two_flags before before

abbrev apps : Dict Text (Dict Text RegistryValue)
apps =
    (
      codes "570",
      (codes "Installed", number 1) ∷ (codes "RUNNING", RegistryValue.text (codes "1")) ∷ [],
    )
    ∷ (codes "440", (codes "Installed", number 1) ∷ (codes "Running", number 0) ∷ [])
    ∷ []

-- Two more libraries, one of them as a dictionary, and then a gap.
abbrev libraries : Vdf
libraries = node (
    entry (codes "libraryfolders")
      (node (
        entry (codes "1") (text (codes "d:")) (
          entry (codes "2") (node (entry (codes "path") (text (codes "e:")) nil))
            (entry (codes "4") (text (codes "f:")) nil))))
      nil)

abbrev pub machine : Machine
machine = record {
  platform = windows;
  apps = some ((codes "570", some ((codes "Installed", number 1) ∷ [])) ∷ (codes "440", none) ∷ []);
  steam_path = some (codes "c:");
  steam_exe = some (codes "steam.exe");
  expanduser = λ t. t;
  load_vdf = λ t. ok libraries;
  acf_files = λ t. codes "appmanifest_570.acf" ∷ codes ".acf" ∷ [];
  join = λ a b. b;
  basename = λ t. t;
}

libraries_run :
    read_folders (record machine { join = λ a b. a ++ b }) libraries
    ≡ some (ok (codes "d:steamapps" ∷ codes "e:steamapps" ∷ []))
unfolding read_folders str folder_path
libraries_run = refl

read_folders-IsReadAs_example :
    (r : Result ClientError (List Text)) × (read_folders machine libraries ≡ some r)
    × IsReadAs machine libraries (item (codes "LibraryFolders") libraries) r
read_folders-IsReadAs_example = read_folders-IsReadAs machine libraries

app_id-manifest_name_example :
    app_id_from_manifest_path machine (machine.join (codes "c:") (manifest_name (codes "570")))
    ≡ codes "570"
app_id-manifest_name_example = app_id-manifest_name machine (codes "c:") (codes "570") refl

-- Three folders list the same manifest; the one with no id is left out.
local_games_run :
    local_games_list two_flags (record machine { join = λ a b. a ++ b })
    ≡ some (
        game (codes "570") false true
        ∷ game (codes "570") false true
        ∷ game (codes "570") false true
        ∷ [])
unfolding local_games_list str folder_path entry_state is_on
local_games_run = refl
