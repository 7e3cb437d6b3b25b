-- ===== src/Frontend/Assets.antt =====
-- slurmweb/ui.py, prepare_assets(): the copy of the files of the user interface.
pub mod Unchanged
pub mod Tests
use slurm_web.Base.{
  ℕ, zero, suc, ◌-◌, String, Bool, true, false, Option, none, some, List, [], ◌∷◌, ◌++◌, ◌==◌, ◌||◌,
  not, if◌then◌else◌, Dict, ◌^^◌, lower, codes, starts_with, length, Text, put,
}
use slurm_web.Py.Error.{Exn, runtime_error, os_error}
use slurm_web.Py.Result.{Result, ok, raised}
use slurm_web.Py.Exec.{Exec, lift, pure, raise, gets, modify, try_except, choose, when, ◌>>=◌, ◌>>◌}
use slurm_web.Frontend.{Logo, logo_parameters, Settings, check_prefix}

-- The tree of the source, with a symbolic link as what it leads to; a file has its path, its bytes and
-- its name in the directory.
mutual
  pub data Entry : Type 0 where
    directory : (name : String) → Entries → Entry
    file : (name path : String) (content : Text) → Entry
    unsupported : Entry

  pub data Entries : Type 0 where
    none_left : Entries
    entry : Entry → Entries → Entries

abbrev pub base_placeholder : Text
base_placeholder = codes "/__SLURMWEB_BASE__"

pub has_placeholder : Text → Bool
has_placeholder [] = false
has_placeholder (c ∷ s) = starts_with base_placeholder (c ∷ s) || has_placeholder s

-- data.replace(BASE_PLACEHOLDER, replacement), with the rest of a match that is left to skip
pub replace_from : Text → ℕ → Text → Text
replace_from replacement skip [] = []
replace_from replacement (suc skip) (c ∷ s) = replace_from replacement skip s
replace_from replacement zero (c ∷ s) =
    let after = replace_from replacement (length base_placeholder - 1) s in
    let rest = replace_from replacement 0 s in
    if starts_with base_placeholder (c ∷ s) then replacement ++ after else c ∷ rest

-- What the module uses of pathlib, shutil and tempfile; `rmtree` ignores errors. The environment
-- gives the settings of development and the runtime directory.
pub record Env (W : Type 0) : Type 0 where
  pub path : String
  pub skip_copy : Bool
  pub assets_dir : Option String
  pub runtime_directory : String
  pub source : W → Entries
  pub suffix : String → String
  pub resolve : String → String
  pub exists : String → W → Bool
  pub is_symlink : String → W → Bool
  pub rmtree : String → W → W
  pub mkdir_all : String → Exec W (Unit {0})
  pub mkdir : String → Exec W (Unit {0})
  pub mkdtemp : Exec W String
  pub unlink : String → Exec W (Unit {0})
  pub copy2 : String → String → Exec W (Unit {0})
  pub write_bytes : String → Text → Exec W (Unit {0})
  pub copystat : String → String → Exec W (Unit {0})

-- The attributes that prepare_assets writes, and the directories that atexit removes.
pub record Frontend (W : Type 0) : Type 0 where
  pub logo_files : Dict String
  pub assets_path : Option String
  pub at_exit : List String
  pub world : W

-- a / b
abbrev pub joined : String → String → String
joined a b = a ^^ ("/" ^^ b)

module _ {W : Type 0} (env : Env W) where
  -- _copy_ui_file
  unfoldable pub copy_ui_file : String → Text → String → Text → Exec W (Unit {0})
  copy_ui_file source content target replacement =
      let suffix = lower (env.suffix source) in
      choose (suffix == ".png" || (suffix == ".ico")) (env.copy2 source target) (
        choose (has_placeholder content)
          (env.write_bytes target (replace_from replacement 0 content)
            >> env.copystat source target)
          (env.copy2 source target))

  -- _copy_ui_tree
  mutual
    pub copy_entry : Entry → String → Text → Exec W (Unit {0})
    copy_entry (directory name entries) destination replacement =
        env.mkdir_all (joined destination name)
        >> copy_ui_tree entries (joined destination name) replacement
    copy_entry (file name path content) destination replacement =
        copy_ui_file path content (joined destination name) replacement
    copy_entry unsupported destination replacement = pure tt

    pub copy_ui_tree : Entries → String → Text → Exec W (Unit {0})
    copy_ui_tree none_left destination replacement = pure tt
    copy_ui_tree (entry e entries) destination replacement =
        copy_entry e destination replacement >> copy_ui_tree entries destination replacement

  -- dest.unlink(), if there is something
  abbrev pub clear : String → Exec W (Unit {0})
  clear dest = do
    found ← gets (λ w. env.exists dest w || env.is_symlink dest w)
    when found (env.unlink dest)

  abbrev pub overlay_logo : String → Logo → Option String → Dict String → Exec W (Dict String)
  overlay_logo logo_dir l none logo_files = pure logo_files
  overlay_logo logo_dir l (some source) logo_files =
      let dest_name = l.dest_base ^^ lower (env.suffix source) in
      clear (joined logo_dir dest_name)
      >> env.copy2 source (joined logo_dir dest_name)
      >> pure (put logo_files l.parameter dest_name)

  unfoldable pub overlay_logos : String → Settings → Dict String → List Logo → Exec W (Dict String)
  overlay_logos logo_dir settings logo_files [] = pure logo_files
  overlay_logos logo_dir settings logo_files (l ∷ logos) =
      overlay_logo logo_dir l (settings l.parameter) logo_files >>= λ files.
      overlay_logos logo_dir settings files logos

  abbrev pub overlay_favicon : String → Option String → Exec W (Unit {0})
  overlay_favicon dest none = pure tt
  overlay_favicon dest (some favicon) = clear dest >> env.copy2 favicon dest

  -- _overlay_branding
  unfoldable pub overlay_branding : Settings → String → Exec W (Dict String)
  overlay_branding settings target_dir = do
    env.mkdir_all (joined target_dir "logo")
    logo_files ← overlay_logos (joined target_dir "logo") settings [] logo_parameters
    overlay_favicon (joined target_dir "favicon.ico") (settings "favicon")
    pure logo_files

  -- except OSError: raise SlurmwebRuntimeError
  abbrev pub as_runtime_error : {A : Type 0} → String → Exn → Exec W A
  as_runtime_error message (os_error err) = raise (runtime_error (message ^^ err))
  as_runtime_error message e = raise e

  abbrev pub remove : String → Exec W (Unit {0})
  remove place w = (ok tt, if env.exists place w then env.rmtree place w else w)

  abbrev pub runtime_target : String → Bool → Exec W String
  runtime_target root false =
      raise (runtime_error ("Systemd runtime directory " ^^ (root ^^ " does not exist")))
  runtime_target root true =
      remove (joined root "ui")
      >> try_except (env.mkdir (joined root "ui")) (
          as_runtime_error ("Unable to create runtime UI directory " ^^ (joined root "ui" ^^ ": ")))
      >> pure (joined root "ui")

  -- _target_directory
  unfoldable pub target_directory : Option String → Exec W String
  target_directory (some assets_dir) =
      remove assets_dir >> env.mkdir_all assets_dir >> pure assets_dir
  target_directory none =
      choose (env.runtime_directory == "")
        (try_except env.mkdtemp
          (as_runtime_error "Unable to create temporary runtime UI directory: "))
        (gets (env.exists env.runtime_directory) >>= runtime_target env.runtime_directory)

  -- the handler of the copy, which removes what was copied
  abbrev pub undo : String → Exn → Exec W (Dict String)
  undo target_dir (os_error err) w =
      (raised (runtime_error ("Unable to copy UI assets: " ^^ err)), env.rmtree target_dir w)
  undo target_dir e w = (raised e, w)

  abbrev pub copied : Settings → Text → String → Exec W (Dict String)
  copied settings replacement target_dir =
      try_except
        (gets env.source >>= λ entries.
          copy_ui_tree entries target_dir replacement >> overlay_branding settings target_dir)
        (undo target_dir)

  -- the part of prepare_assets that copies: the directory and the logos
  unfoldable pub copy_assets : Settings → String → Exec W (String × Dict String)
  copy_assets settings prefix = do
    target_dir ←
        try_except (target_directory env.assets_dir)
          (as_runtime_error "Unable to create runtime UI directory: ")
    logo_files ← copied settings (codes prefix) target_dir
    pure (target_dir, logo_files)

  abbrev pub outside : {A : Type 0} → Exec W A → Exec (Frontend W) A
  outside m f = ((m f.world).0, record f { world = (m f.world).1 })

  -- the tests and the copy
  unfoldable pub prepared : Settings → String → Exec (Frontend W) (String × Dict String)
  prepared settings prefix = do
    lift (check_prefix prefix)
    found ← outside (gets (env.exists env.path))
    when (not found) (raise (runtime_error ("UI path " ^^ (env.path ^^ " does not exist"))))
    choose env.skip_copy (pure (env.resolve env.path, [])) (outside (copy_assets settings prefix))

  abbrev pub to_remove : Option String → String → List String → List String
  to_remove none target_dir at_exit = target_dir ∷ at_exit
  to_remove (some assets_dir) target_dir at_exit = at_exit

  abbrev pub keep_assets : String × Dict String → Frontend W → Frontend W
  keep_assets (target_dir, logo_files) f = record f {
    logo_files = logo_files;
    assets_path = some target_dir;
    at_exit = if env.skip_copy then f.at_exit else to_remove env.assets_dir target_dir f.at_exit;
  }

  -- prepare_assets
  unfoldable pub prepare_assets : Settings → String → Exec (Frontend W) String
  prepare_assets settings prefix = do
    (target_dir, logo_files) ← prepared settings prefix
    modify (keep_assets (target_dir, logo_files))
    pure target_dir

-- assets_path
pub assets_path : {W : Type 0} → Frontend W → Result String
assets_path f = elim f.assets_path [
  | none ↦ raised (runtime_error "UI assets have not been prepared yet")
  | some path ↦ ok path
]
