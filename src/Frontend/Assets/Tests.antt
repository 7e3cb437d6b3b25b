-- ===== src/Frontend/Assets/Tests.antt =====
-- A source with one page, and a full disk.
use slurm_web.Base.{
  String, ◌≡◌, refl, Bool, true, false, Option, none, some, List, [], ◌∷◌, ◌==◌, codes,
}
use slurm_web.Py.Error.{os_error, runtime_error}
use slurm_web.Py.Result.{raised}
use slurm_web.Py.Exec.{pure, raise}
use slurm_web.Frontend.{Settings}
use slurm_web.Frontend.Assets.{
  Env, Frontend, entry, file, none_left, replace_from, prepare_assets, assets_path,
}
use slurm_web.Frontend.Assets.Unchanged.{Same, prepare_assets-Same}

-- the world tells whether the directory was removed
abbrev env : Env Bool
env = record {
  path = "/usr/share/ui";
  skip_copy = false;
  assets_dir = none;
  runtime_directory = "";
  source = λ w. entry (file "index.html" "/usr/share/ui/index.html" (codes "<a>")) none_left;
  suffix = λ path. ".html";
  resolve = λ path. path;
  exists = λ path w. path == "/usr/share/ui";
  is_symlink = λ path w. false;
  rmtree = λ path w. true;
  mkdir_all = λ path. pure tt;
  mkdir = λ path. pure tt;
  mkdtemp = pure "/tmp/ui";
  unlink = λ path. pure tt;
  copy2 = λ source target. raise (os_error "disk full");
  write_bytes = λ target content. pure tt;
  copystat = λ source target. pure tt;
}

abbrev settings : Settings
settings parameter = none

abbrev start : Frontend Bool
start = record { logo_files = []; assets_path = none; at_exit = []; world = false }

replaced : replace_from (codes "/p") 0 (codes "x/__SLURMWEB_BASE__/y") ≡ codes "x/p/y"
unfolding replace_from
replaced = refl

removed :
    prepare_assets env settings "/slurm" start
    ≡ (raised (runtime_error "Unable to copy UI assets: disk full"), record start { world = true })
unfolding prepare_assets slurm_web.Frontend.Assets.prepared slurm_web.Frontend.check_prefix
    slurm_web.Frontend.Assets.copy_assets slurm_web.Frontend.Assets.target_directory
    slurm_web.Frontend.Assets.copy_ui_tree slurm_web.Frontend.Assets.copy_ui_file
    slurm_web.Base.lower slurm_web.Frontend.Assets.has_placeholder
removed = refl

failed :
    (prepare_assets env settings "/slurm" start).0
    ≡ raised (runtime_error "Unable to copy UI assets: disk full")
unfolding prepare_assets slurm_web.Frontend.Assets.prepared slurm_web.Frontend.check_prefix
    slurm_web.Frontend.Assets.copy_assets slurm_web.Frontend.Assets.target_directory
    slurm_web.Frontend.Assets.copy_ui_tree slurm_web.Frontend.Assets.copy_ui_file
    slurm_web.Base.lower slurm_web.Frontend.Assets.has_placeholder
failed = refl

prepare_assets-Same_example : Same env start (prepare_assets env settings "/slurm" start).1
prepare_assets-Same_example =
    prepare_assets-Same env settings "/slurm" start
      (runtime_error "Unable to copy UI assets: disk full") failed
