-- ===== src/Config/Load.antt =====
-- config/config.go: which file holds the configuration, and its loading and saving. The file system
-- is a parameter: what a read of a path gives, and whether a directory is made and a file written.
use dnsplane.Base.{
  ◌==◌, Bool, true, false, ◌||◌, not, List, [], ◌∷◌, ◌++◌, Option, none, some, any, is_empty,
  if◌then◌else◌,
}
use dnsplane.Text.{Text, codes, text_eq, trim_space, has_suffix, contains}
use dnsplane.Config.Types.{Config}
use dnsplane.Config.Keys.{Values, Raw}
use dnsplane.Config.Read.{unmarshal}
use dnsplane.Config.Write.{marshal}
use dnsplane.Config.Defaults.{Paths, apply_defaults, default_config}

-- os.ReadFile and what the text is to json.Unmarshal: not there, another error, blank, no JSON, or
-- an object.
pub data FileRead {ℓ} (V : Type ℓ) : Type ℓ where
  not_exist unreadable blank malformed : FileRead V
  object : Raw V → FileRead V

pub record Disk {ℓ} (V : Type ℓ) : Type ℓ where
  pub read_file : Text → FileRead V
  pub is_dir : Text → Bool
  pub dir : Text → Text
  pub base : Text → Text
  pub made : Text → Bool
  pub written : Text → Bool
  pub executable : Option Text
  pub user_config_dir : Option Text
  pub getwd : Option Text

pub data LoadError : Type 0 where
  path_empty no_executable no_working_dir not_made not_written : LoadError
  failed_to_read : Text → LoadError

-- Loaded, with what has been written to its path, if anything.
pub record Loaded {ℓ} (V : Type ℓ) : Type ℓ where
  pub path : Text
  pub created : Bool
  pub config : Config
  pub contents : Option (Raw V)

pub data Result {ℓ κ} (E : Type ℓ) (A : Type κ) : Type (ℓ ⊔ κ) where
  err : E → Result E A
  ok : A → Result E A

-- appendIfMissing
unfoldable pub append_if_missing : List Text → Text → List Text
append_if_missing paths candidate =
    if any (λ p. text_eq p candidate) paths then paths else paths ++ candidate ∷ []

-- strings.TrimSuffix(path, "/")
unfoldable pub trim_slash : Text → Text
trim_slash [] = []
trim_slash (c ∷ []) = if c == 47 then [] else c ∷ []
trim_slash (c ∷ d ∷ s) = c ∷ trim_slash (d ∷ s)

abbrev pub file_name : Text
file_name = codes "dnsplane.json"

abbrev pub system_config_path : Text
system_config_path = codes "/etc/dnsplane.json"

module _ {ℓ} {V : Type ℓ} (vals : Values V) (paths : Paths) (disk : Disk V) where
  unfoldable pub user_config_path : Option Text
  user_config_path = elim disk.user_config_dir [
    | none ↦ none
    | some dir ↦ some (paths.join (paths.join dir (codes "dnsplane")) file_name)
  ]

  unfoldable pub with_user_path : List Text → Option Text → List Text
  with_user_path ps none = ps
  with_user_path ps (some p) = if is_empty p then ps else append_if_missing ps p

  unfoldable pub candidate_paths : Option (List Text)
  candidate_paths = elim disk.executable [
    | none ↦ none
    | some exec_path ↦ some (
        append_if_missing
          (with_user_path (append_if_missing [] (paths.join (disk.dir exec_path) file_name))
            user_config_path)
          system_config_path)
  ]

  unfoldable pub resolve_config_path : Text → Option Text
  resolve_config_path path =
      let p = paths.clean (trim_space path) in
      if is_empty p || text_eq p (codes ".")
      then none
      else if has_suffix p (codes "/")
          || (disk.is_dir p || not (contains (disk.base p) (codes ".")))
      then some (paths.join (if has_suffix p (codes "/") then trim_slash p else p) file_name)
      else some p

  -- readConfig: none for an error. Its second reading of the key DNSRecordSettings, which finds the
  -- value of a key that differs from it in case alone, is left out.
  unfoldable pub parsed : FileRead V → Option Config
  parsed not_exist = none
  parsed unreadable = none
  parsed blank = none
  parsed malformed = none
  parsed (object raw) = some (unmarshal vals raw)

  unfoldable pub loaded : Text → Config → Loaded V
  loaded path cfg = record {
    path = path;
    created = false;
    config = apply_defaults paths (disk.dir path) cfg;
    contents = none;
  }

  -- The file written for a new installation, and the configuration then.
  unfoldable pub created_at : Text → Text → Result LoadError (Loaded V)
  created_at path dir =
      let cfg = default_config paths dir in
      if disk.written path
      then ok (record {
        path = path;
        created = true;
        config = apply_defaults paths dir cfg;
        contents = some (marshal vals cfg);
      })
      else err not_written

  -- The loop over the candidates: none when no file is there.
  unfoldable pub load_first : List Text → Option (Result LoadError (Loaded V))
  load_first [] = none
  load_first (path ∷ rest) =
      let later = load_first rest in
      elim (disk.read_file path) [
        | not_exist ↦ later
        | unreadable ↦ some (err (failed_to_read path))
        | blank ↦ some (err (failed_to_read path))
        | malformed ↦ some (err (failed_to_read path))
        | object raw ↦ some (ok (loaded path (unmarshal vals raw)))
      ]

  unfoldable pub load_default : Result LoadError (Loaded V)
  load_default = elim disk.getwd [
    | none ↦ err no_working_dir
    | some dir ↦ created_at (paths.join dir file_name) dir
  ]

  unfoldable pub load_among : List Text → Result LoadError (Loaded V)
  load_among candidates = elim (load_first candidates) [ none ↦ load_default | some r ↦ r ]

  unfoldable pub load : Result LoadError (Loaded V)
  load = elim candidate_paths [ none ↦ err no_executable | some ps ↦ load_among ps ]

  unfoldable pub create_in_made : Text → Result LoadError (Loaded V)
  create_in_made path =
      if disk.made (disk.dir path) then created_at path (disk.dir path) else err not_made

  unfoldable pub load_resolved : Text → FileRead V → Result LoadError (Loaded V)
  load_resolved path not_exist = create_in_made path
  load_resolved path unreadable = err (failed_to_read path)
  load_resolved path blank = err (failed_to_read path)
  load_resolved path malformed = err (failed_to_read path)
  load_resolved path (object raw) = ok (loaded path (unmarshal vals raw))

  unfoldable pub load_from_path : Text → Result LoadError (Loaded V)
  load_from_path path =
      if is_empty (trim_space path)
      then err path_empty
      else elim (resolve_config_path (trim_space path)) [
        | none ↦ err path_empty
        | some p ↦ load_resolved p (disk.read_file p)
      ]

  -- Read
  unfoldable pub read_at : Text → Option Config
  read_at path = elim (parsed (disk.read_file path)) [
    | none ↦ none
    | some cfg ↦ some (apply_defaults paths (disk.dir path) cfg)
  ]

  -- Save: what is written, or an error
  unfoldable pub save : Text → Config → Result LoadError (Raw V)
  save path cfg =
      if not (disk.made (disk.dir path))
      then err not_made
      else if not (disk.written path)
      then err not_written
      else ok (marshal vals (apply_defaults paths (disk.dir path) cfg))
