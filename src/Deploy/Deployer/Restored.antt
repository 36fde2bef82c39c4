-- ===== src/Deploy/Deployer/Restored.antt =====
-- Failed deployments on the panel's own tables of inbounds and users.
use zenith_panel.Common.{◌≡◌, none, some, Text}
use zenith_panel.Deploy.Orchestrator.{Faults, DbCall, World}
use zenith_panel.Deploy.Pipeline.{Answers, apply}
use zenith_panel.Deploy.Pipeline.Restores.{IsFresh, apply_restores}
use zenith_panel.Deploy.Deployer.{Tuner, Database, panel_host}
use zenith_panel.Deploy.Deployer.Removal.{Counts, panel-Undoes}

-- When `Apply` reports an error, at whichever stage and whatever the tuner did, the tables of inbounds
-- and users are as they were before: every inbound of the deployment is gone again. The database gives
-- out no id twice and commits the deletions, the log holds earlier deployments only and could be read
-- for the rollback, and the deployment's own status could be written.
pub apply-deployed :
    (tuner : Tuner) (db : Database) (faults : Faults) (ans : Answers)
    (w : World (panel_host tuner db)) (e : Text)
    → Counts db
    → IsFresh (panel_host tuner db) w
    → faults DbCall.find_ops ≡ none
    → faults DbCall.save_deployment ≡ none
    → (apply (panel_host tuner db) faults ans w).0.1 ≡ some e
    → (apply (panel_host tuner db) faults ans w).1.host.tables ≡ w.host.tables
apply-deployed tuner db faults ans w e counts =
    apply_restores (panel_host tuner db) (panel-Undoes tuner db counts) faults ans w e
