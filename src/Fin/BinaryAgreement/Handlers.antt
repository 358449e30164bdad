-- ===== src/Fin/BinaryAgreement/Handlers.antt =====
-- The aux and conf handlers of a binary agreement, consensus/fin/MVBA/binaryagreement/handlemsg.go.
-- Reading an entry that `ConfValue` does not have ends the program: that is `none`.
use dumbo_ms.Prelude.{
  ℕ, ◌+◌, ◌*◌, Bool, true, false, List, [], ◌∷◌, Option, none, some, get_elem?, ◌==◌, if◌then◌else◌,
}
use dumbo_ms.Fin.Messages.{BaMsg}
use dumbo_ms.Fin.BinaryAgreement.{Agreement}

-- Three counters, and how often each has been signalled: the locals of either handler.
pub record Quorums : Type 0 where
  pub count0 : ℕ
  pub count1 : ℕ
  pub countmix : ℕ
  pub ready0 : ℕ
  pub ready1 : ℕ
  pub readymix : ℕ

abbrev pub new_quorums : Quorums
new_quorums = record { count0 = 0; count1 = 0; countmix = 0; ready0 = 0; ready1 = 0; readymix = 0 }

-- `if n == quorum { ready <- true }`
abbrev pub signal_at : ℕ → ℕ → ℕ → ℕ
signal_at quorum n sent = if n == quorum then sent + 1 else sent

module _ (c : Agreement) where
  abbrev quorum : ℕ
  quorum = c.faults * 2 + 1

  abbrev pub mixed : Quorums → Quorums
  mixed s = record s {
    countmix = s.countmix + 1;
    readymix = signal_at quorum (s.countmix + 1) s.readymix;
  }

  abbrev pub for_zero : Quorums → Quorums
  for_zero s = record (mixed s) {
    count0 = s.count0 + 1;
    ready0 = signal_at quorum (s.count0 + 1) s.ready0;
  }

  abbrev pub for_one : Quorums → Quorums
  for_one s = record (mixed s) {
    count1 = s.count1 + 1;
    ready1 = signal_at quorum (s.count1 + 1) s.ready1;
  }

  unfoldable pub handle_aux : ℕ → BaMsg → Quorums → Quorums
  handle_aux loop msg s =
      if msg.loop == loop then (if msg.value then for_one s else for_zero s) else s

  -- By the two entries of `ConfValue`; the second is read in every case.
  unfoldable pub conf_case : Bool → Bool → Quorums → Quorums
  conf_case true true s = mixed s
  conf_case true false s = for_zero s
  conf_case false true s = for_one s
  conf_case false false s = s

  abbrev pub conf_entries : Option Bool → Option Bool → Quorums → Option Quorums
  conf_entries (some a) (some b) s = some (conf_case a b s)
  conf_entries (some a) none s = none
  conf_entries none b s = none

  unfoldable pub handle_conf : ℕ → BaMsg → Quorums → Option Quorums
  unfolding conf_case
  handle_conf loop msg s =
      if msg.loop == loop
      then conf_entries (get_elem? msg.conf_value 0) (get_elem? msg.conf_value 1) s
      else some s

  -- The loops of the goroutines over the messages of their channels.
  unfoldable pub aux_loop : ℕ → List BaMsg → Quorums → Quorums
  unfolding handle_aux
  aux_loop loop [] s = s
  aux_loop loop (m ∷ ms) s = aux_loop loop ms (handle_aux loop m s)

  unfoldable pub conf_loop : ℕ → List BaMsg → Quorums → Option Quorums
  unfolding handle_conf
  conf_loop loop [] s = some s
  conf_loop loop (m ∷ ms) s = elim (handle_conf loop m s) [
    | none ↦ none
    | some t ↦ conf_loop loop ms t
  ]
