-- ===== src/Examples/Shipping.antt =====
-- The shipper's theorems at concrete inputs.
use runtime_agent.Sink.Registry.{lookup_kind}
use runtime_agent.Prelude.{
  has_suffix, text_eq, take, ℕ, ◌≡◌, ◌≢◌, refl, true, false, Bool, List, [], ◌∷◌, Option, some,
  Text, codes, arith,
}
use runtime_agent.Prelude.Sort.{sort_slice}
use runtime_agent.Shipper.State.{FileInfo, Shipper, hold, one_malformed, fresh_shipper}
use runtime_agent.Shipper.Pending.{DirEntry, pending}
use runtime_agent.Shipper.Pending.Offers.{IsRound, pending-IsRound}
use runtime_agent.Shipper.Deliver.{Attempt, deliver}
use runtime_agent.Shipper.Deliver.Outcomes.{IsAcknowledged, deliver-IsAcknowledged}
use runtime_agent.Shipper.Deliver.Verdicts.{IsCounted, deliver-IsCounted}
use runtime_agent.Shipper.Round.{Round, round}
use runtime_agent.Shipper.Round.Halting.{Stops, Refused, round_halts, round-Stops}

abbrev envelope : Text → Option Text
envelope t = some (codes "collection_coverage")

abbrev gzip : Text → Option Text
gzip t = some t

abbrev info : FileInfo
info = record { inode = 7; size = 2; mod_time = 50 }

abbrev file : Text
file = codes "a.json"

-- The file is there throughout, and the backend answers with `status`.
abbrev attempt : ℕ → Attempt
attempt status = record {
  opened = some (record { info = info; content = some (codes "{}") });
  answer = some status;
  cancelled = false;
  current = some info;
  removes = true;
  clock = 9;
}

is_removed : (deliver envelope gzip fresh_shipper file (attempt 200)).removed ≡ true
unfolding deliver take lookup_kind text_eq
is_removed = refl

deliver-IsAcknowledged_example :
    IsAcknowledged fresh_shipper
      (attempt 200)
      (deliver envelope gzip fresh_shipper file (attempt 200))
deliver-IsAcknowledged_example =
    deliver-IsAcknowledged envelope gzip fresh_shipper file (attempt 200) is_removed

deliver-IsCounted_example :
    IsCounted envelope gzip fresh_shipper
      (attempt 413)
      (deliver envelope gzip fresh_shipper file (attempt 413))
deliver-IsCounted_example = deliver-IsCounted envelope gzip fresh_shipper file (attempt 413)

abbrev entry : DirEntry
entry = record { name = file; is_dir = false; info = some info }

abbrev older : DirEntry
older = record {
  name = codes "b.json";
  is_dir = false;
  info = some (record { inode = 8; size = 2; mod_time = 40 });
}

abbrev halting_round : Round
halting_round =
    round envelope gzip (λ n. attempt 401) (λ n. false) (some (entry ∷ older ∷ [])) fresh_shipper

halted_then : halting_round.shipper.halted_at ≡ 9
unfolding round pending sort_slice has_suffix deliver take lookup_kind text_eq
halted_then = refl

has_halted : halting_round.shipper.halted_at ≢ 0
has_halted h = absurd (omega (arith, h, halted_then))

round_halts_example :
    Refused envelope gzip (λ n. attempt 401) (λ n. false) halting_round.offered
    × ((world' : Text → Attempt) (stopped' : Text → Bool) (later : Option (List DirEntry))
        → round envelope gzip world' stopped' later halting_round.shipper
          ≡ record { shipper = halting_round.shipper; offered = []; removed = [] })
round_halts_example =
    round_halts envelope gzip (λ n. attempt 401) (λ n. false) (some (entry ∷ older ∷ []))
      fresh_shipper refl has_halted

round-Stops_example :
    Stops envelope gzip
      (λ n. attempt 500)
      (λ n. false)
      (round envelope gzip
        (λ n. attempt 500)
        (λ n. false)
        (some (entry ∷ older ∷ []))
        fresh_shipper).offered
round-Stops_example =
    round-Stops envelope gzip (λ n. attempt 500) (λ n. false) (some (entry ∷ older ∷ []))
      fresh_shipper

-- A directory and a file that is still being written, beside them.
abbrev beside : List DirEntry
beside =
    record { name = codes "tmp"; is_dir = true; info = some info }
    ∷ record { name = codes "c.json.tmp"; is_dir = false; info = some info }
    ∷ []

pending-IsRound_example :
    IsRound fresh_shipper
      (entry ∷ older ∷ beside)
      (pending fresh_shipper (some (entry ∷ older ∷ beside))).1
pending-IsRound_example = pending-IsRound fresh_shipper (entry ∷ older ∷ beside)

abbrev holding : Shipper
holding = hold fresh_shipper file info one_malformed
