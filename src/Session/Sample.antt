-- ===== src/Session/Sample.antt =====
-- An engine for tests that answers every reading alike and counts its calls, and a session over it.
use atzc.Prelude.{ℕ, ◌+◌, true, [], ◌∷◌}
use atzc.Prelude.Text.{Text, codes}
use atzc.Proto.{Candidate, ConvertResult}
use atzc.Session.{Engine, Session}

abbrev pub candidate : Text → Candidate
candidate t = record { surface = t; reading = codes "r"; hinsi = codes "n" }

abbrev pub top : ConvertResult
top = record {
  commit = codes "A";
  candidates = [];
  candidates_ex = candidate (codes "A") ∷ candidate (codes "B") ∷ [];
}

abbrev pub full : ConvertResult
full = record {
  commit = codes "B";
  candidates = codes "B" ∷ codes "A" ∷ codes "C" ∷ [];
  candidates_ex = candidate (codes "B") ∷ candidate (codes "C") ∷ [];
}

abbrev pub counting : Engine
counting = record {
  State = ℕ;
  top_one = λ romaji out err n. record { ok = true; out = top; err = err; state = n + 1 };
  convert = λ romaji max out err n. record { ok = true; out = full; err = err; state = n + 1 };
}

abbrev pub fresh : Session ℕ
fresh = record { engine = 0; cache = []; lru = []; top1_hints = []; pending = [] }
