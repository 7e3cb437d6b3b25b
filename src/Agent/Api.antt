-- ===== src/Agent/Api.antt =====
-- What the views of the agent take from their client of slurmrestd (slurmweb/apps/agent.py), and the
-- cached client as such.
use slurm_web.Base.{ℕ, String, Option}
use slurm_web.Py.Value.{Value}
use slurm_web.Py.Exec.{Exec}
use slurm_web.Cache.{Redis}
use slurm_web.Slurmrestd.Client
use slurm_web.Slurmrestd.Client.{Client, Net}
use slurm_web.Slurmrestd.Filtered.{Filters}
use slurm_web.Slurmrestd.Cached
use slurm_web.Slurmrestd.Cached.{CacheSettings}

pub record Api (S : Type 0) : Type 0 where
  pub discover : Exec S (Value × Value × Option String)
  pub jobs : Exec S Value
  pub jobs_past : ℕ → Exec S Value
  pub job : ℕ → Exec S Value
  pub nodes : Exec S Value
  pub node : String → Exec S Value
  pub partitions : Exec S Value
  pub accounts : Exec S Value
  pub associations : Exec S Value
  pub reservations : Exec S Value
  pub qos : Exec S Value

-- SlurmrestdFilteredCached
abbrev pub cached_api : {W : Type 0} → Redis W → Net W → Filters → CacheSettings → Api (Client W)
cached_api redis net filters cache = record {
  discover = Client.discover net;
  jobs = Cached.jobs redis net filters cache;
  jobs_past = Cached.jobs_past redis net filters cache;
  job = Cached.job redis net filters cache;
  nodes = Cached.nodes redis net filters cache;
  node = Cached.node redis net filters cache;
  partitions = Cached.partitions redis net filters cache;
  accounts = Cached.accounts redis net filters cache;
  associations = Cached.associations redis net filters cache;
  reservations = Cached.reservations redis net filters cache;
  qos = Cached.qos redis net filters cache;
}
