-- ===== src/Remediation/Engine/Allowed.antt =====
-- internal/remediation/engine.go: nothing is run for a monitor that does not allow it.
use askio_agent.Base.{
  String, Bool, false, not, ◌&&◌, ◌||◌, ◌≡◌, refl, some, List, inl, inr, arith, ◌==◌, append,
  Option-cases, mem_string,
}
use askio_agent.Base.Action.{fail, match_option, raise}
use askio_agent.Remediation.Machine.{Machine, Executor}
use askio_agent.Remediation.Playbooks.{Monitor, Playbook}
use askio_agent.Remediation.Engine.{
  equal_nil, allowed_for_monitor, find_playbook, run_playbook, mem_type,
}

-- What the monitor lets an engine run: no automatic run unless remediation is enabled, nothing outside
-- a list of allowed playbooks that is not empty, and nothing for another type of service.
abbrev pub admits : Monitor → Playbook → String → Bool
admits monitor book trigger =
    (not (trigger == "auto") || monitor.remediation_enabled)
    && (equal_nil monitor.allowed_playbook_ids || mem_string book.id monitor.allowed_playbook_ids)
    && mem_type monitor.service_type book.service_types

allowed-admits :
    (monitor : Monitor) (book : Playbook) (trigger : String)
    → admits monitor book trigger ≡ false
    → allowed_for_monitor monitor book trigger ≡ false
unfolding allowed_for_monitor
allowed-admits monitor book trigger h = ground arith

module _ {World : Type 0} (m : Machine World) (e : Executor) where
  -- A playbook that the monitor does not admit for this trigger is refused by every engine, whatever
  -- its playbooks are, and the host is left as it is.
  pub run_playbook-refused :
      (books : List Playbook) (monitor : Monitor) (id trigger : String) (w : World)
      → ((book : Playbook)
          → find_playbook id books ≡ some book
          → admits monitor book trigger ≡ false)
      → (message : String) × (run_playbook m e books monitor id trigger w ≡ fail message w)
  unfolding run_playbook raise match_option
  run_playbook-refused books monitor id trigger w refuses =
      elim (Option-cases (find_playbook id books)) [
        | inl missing ↦ (append "unknown playbook: " id, rw missing refl)
        | inr (book, found) ↦ (
          "playbook not allowed",
          rw (found, allowed-admits monitor book trigger (refuses book found)) refl,
        )
      ]
