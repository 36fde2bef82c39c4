-- ===== src/Proxy/Runtime/Adapter.antt =====
-- `engineAdapter` of proxy/runtime.go: an engine that is a process with a configuration file. The
-- generator of configurations, the validator and the operating system answer through an argument,
-- which may answer every call differently: `clock` counts the calls. The hook that flushes the
-- traffic before a stop is left out, and a started process runs until it is stopped.
pub mod Reliability
use zenith_panel.Common.{
  ℕ, suc, ◌≡◌, refl, Option, none, some, Bool, true, false, Text, codes, Result, ok, err, arith,
  Bool-cases, Option-cases, Result-cases, inl, inr, if◌then◌else◌, ◌>>=◌, ◌>>◌, check, [], is_some,
}
use zenith_panel.Proxy.Runtime.{EngineSnapshot, Engine}

-- `BaseCore`: the file at `ConfigPath`, whether the process is up, and the mode.
pub record Core : Type 0 where
  pub file : Option Text
  pub is_up : Bool
  pub is_dual : Bool
  pub clock : ℕ

pub data OsCall : Type 0 where
  read_file write_file remove_file make_candidate kill launch : OsCall

pub record Os : Type 0 where
  pub fails : OsCall → ℕ → Option Text
  pub generate : Bool → ℕ → Result Text
  pub validate : Text → ℕ → Option Text

abbrev tick : Core → Core
tick c = record c { clock = suc c.clock }

-- What a call of the system leaves, by its error.
pub attempt : Option Text → Core → Core → Option Text × Core
attempt (some e) old new = (some e, tick old)
attempt none old new = (none, tick new)

module _ (os : Os) where
  -- The result of `os.ReadFile` and what the snapshot makes of it.
  seen : Core → Result EngineSnapshot
  seen c = elim c.file [
    | some b ↦ ok (record { config = b; exists = true; running = c.is_up; dual = c.is_dual })
    | none ↦
        if c.is_up
        then err (codes "file does not exist")
        else ok (record { config = []; exists = false; running = c.is_up; dual = c.is_dual })
  ]

  unfoldable pub snapshot : Core → Result EngineSnapshot × Core
  unfolding seen
  snapshot c = (check (os.fails OsCall.read_file c.clock) >> seen c, tick c)

  -- The candidate in a temporary file, which is validated and removed.
  checked : Text → ℕ → Result Text
  checked candidate n = elim (os.fails OsCall.make_candidate n) [
    | some e ↦ err e
    | none ↦ elim (os.validate candidate n) [ some e ↦ err e | none ↦ ok candidate ]
  ]

  -- The mode is set for the generator and set back.
  unfoldable pub prepare : Bool → Core → Result Text × Core
  unfolding checked
  prepare dual c =
      let old = c.is_dual in
      let c1 = record c { is_dual = dual } in
      (
        os.generate c1.is_dual c.clock >>= λ candidate. checked candidate c.clock,
        tick (record c1 { is_dual = old }),
      )

  -- `BaseCore.Stop`; nothing is done where no process is up.
  unfoldable pub stop : Core → Option Text × Core
  unfolding attempt
  stop c =
      if c.is_up
      then attempt (os.fails OsCall.kill c.clock) c (record c { is_up = false })
      else (none, c)

  -- `WriteConfigToFile` renames a complete file into place or leaves the old one.
  write_config : Text → Core → Option Text × Core
  unfolding attempt
  write_config content c =
      attempt (os.fails OsCall.write_file c.clock) c (record c { file = some content })

  -- `startAndVerify`: the process is up or an error says that it is not.
  launch_core : Core → Option Text × Core
  unfolding attempt
  launch_core c = attempt (os.fails OsCall.launch c.clock) c (record c { is_up = true })

  launch_after : Bool → Option Text × Core → Option Text × Core
  unfolding launch_core
  launch_after dual (some e, c) = (some e, c)
  launch_after dual (none, c) = launch_core (record c { is_dual = dual })

  -- `start` by what `Status` says.
  start_if : Bool → Text → Bool → Core → Option Text × Core
  unfolding write_config launch_after
  start_if true candidate dual c = (some (codes "engine still running after stop"), c)
  start_if false candidate dual c = launch_after dual (write_config candidate c)

  unfoldable pub start : Text → Bool → Core → Option Text × Core
  unfolding start_if
  start candidate dual c = start_if c.is_up candidate dual c

  remove_config : Core → Option Text × Core
  unfolding attempt
  remove_config c = attempt (os.fails OsCall.remove_file c.clock) c (record c { file = none })

  -- `restore` behind its stop and behind the mode.
  put_file : Bool → Bool → EngineSnapshot → Core → Option Text × Core
  unfolding remove_config start write_config
  put_file false running s c = remove_config c
  put_file true true s c = start s.config s.dual c
  put_file true false s c = write_config s.config c

  put : EngineSnapshot → Option Text × Core → Option Text × Core
  unfolding put_file
  put s (some e, c) = (some e, c)
  put s (none, c) = put_file s.exists s.running s (record c { is_dual = s.dual })

  unfoldable pub restore : EngineSnapshot → Core → Option Text × Core
  unfolding put stop
  restore s c = put s (stop c)

  abbrev pub adapter : Engine
  adapter = record {
    State = Core;
    snapshot = snapshot;
    prepare = prepare;
    stop = stop;
    start = start;
    restore = restore;
  }
