-- ===== src/Local/Manifests.antt =====
-- From the path of a manifest back to the id of its app.
use galaxy_integration_steam.Prelude.{
  ◌≡◌, ap, ◌∙◌, ◌++◌, arith, take, take-append_length, length-append,
}
use galaxy_integration_steam.Prelude.Keys.{nat_eq}
use galaxy_integration_steam.Prelude.Text.{Text, codes, list_eq}
use galaxy_integration_steam.Local.Folders.{Machine, app_id_from_manifest_path}

abbrev pub manifest_name : Text → Text
manifest_name app_id = codes "appmanifest_" ++ (app_id ++ codes ".acf")

-- The name of the manifest of an app gives the app's id, where `os.path.basename` gives that name for
-- the path that `os.path.join` makes of the folder and the name.
pub app_id-manifest_name :
    (m : Machine) (folder app_id : Text)
    → m.basename (m.join folder (manifest_name app_id)) ≡ manifest_name app_id
    → app_id_from_manifest_path m (m.join folder (manifest_name app_id)) ≡ app_id
unfolding app_id_from_manifest_path
app_id-manifest_name m folder app_id h = rw h (
    ap (λ n. take n (app_id ++ codes ".acf")) (omega (arith, length-append app_id (codes ".acf")))
    ∙ take-append_length app_id (codes ".acf"))
