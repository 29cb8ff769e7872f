-- ===== src/Audio/Getting.antt =====
-- What `getMsg` of the two states of a listener takes out of the cached messages (src/audio.cpp).
use rcssserver.Base.{
  ◌≡◌, refl, ◌⊎◌, inl, inr, ℕ, zero, suc, ◌<◌, true, false, ◌==◌, ltb, leb, ap, if◌then◌else◌,
  Option, none, some, List, [], ◌∷◌, length, if_elim, arith,
}
use native.Mathlib.Nat.{mod-lt}
use mathlib.Core.List.{Perm}
use mathlib.Core.List.Perm
use rcssserver.Match.State.{Player, same_player}
use rcssserver.Audio.State.{HearParam}
use rcssserver.Audio.Cycle.{
  Saying, irand, keep, take_at, count_from, take_from, read_erased, get_msg,
}

-- The messages `ms` without one.
pub record Got (ms : List Saying) (m : Saying) (rest : List Saying) : Type 0 where
  pub perm : Perm (m ∷ rest) ms
  pub counts : (p : Player) → count_from p (m ∷ rest) ≡ count_from p ms
  pub fewer : length ms ≡ suc (length rest)

keep-Got : (x m : Saying) (ms rest : List Saying) → Got ms m rest → Got (x ∷ ms) m (x ∷ rest)
unfolding count_from
keep-Got x m ms rest g = record {
  perm = Perm.trans (Perm.swap x m rest) (Perm.cons x g.perm);
  counts = λ p. omega (arith, g.counts p);
  fewer = omega (arith, g.fewer);
}

-- What a search for a message finds.
abbrev Found : List Saying → Option (Saying × List Saying) → Type 0
Found ms none = ⊥
Found ms (some (m, rest)) = Got ms m rest

keep-Found :
    (x : Saying) (ms : List Saying) (o : Option (Saying × List Saying))
    → Found ms o
    → Found (x ∷ ms) (keep x o)
keep-Found x ms none f = f
keep-Found x ms (some (m, rest)) g = keep-Got x m ms rest g

take_at-Found : (i : ℕ) (ms : List Saying) → i < length ms → Found ms (take_at i ms)
unfolding take_at
take_at-Found i [] h = absurd (omega arith)
take_at-Found zero (m ∷ ms) h = record {
  perm = Perm.refl (m ∷ ms);
  counts = λ p. refl;
  fewer = refl;
}
take_at-Found (suc i) (m ∷ ms) h = keep-Found m ms (take_at i ms) (take_at-Found i ms (omega arith))

-- The message found is from the player.
abbrev IsFrom : Player → Option (Saying × List Saying) → Type 0
IsFrom p none = ⊥
IsFrom p (some (m, rest)) = same_player m.0 p ≡ true

keep-IsFrom :
    (p : Player) (x : Saying) (o : Option (Saying × List Saying)) → IsFrom p o → IsFrom p (keep x o)
keep-IsFrom p x none f = f
keep-IsFrom p x (some (m, rest)) f = f

take_from-Found :
    (p : Player) (i : ℕ) (ms : List Saying)
    → i < count_from p ms
    → Found ms (take_from p i ms) × IsFrom p (take_from p i ms)
unfolding take_from count_from
take_from-Found p i [] h = absurd (omega arith)
take_from-Found p zero (m ∷ ms) h =
    if_elim (λ o. Found (m ∷ ms) o × IsFrom p o) (same_player m.0 p)
      (λ e. (record { perm = Perm.refl (m ∷ ms); counts = λ q. refl; fewer = refl }, e))
      (λ e.
        let (found, from) = take_from-Found p zero ms (ground (arith, h, e)) in
        (keep-Found m ms (take_from p zero ms) found, keep-IsFrom p m (take_from p zero ms) from))
take_from-Found p (suc i) (m ∷ ms) h =
    let (found, from) =
      if_elim (λ o. Found ms o × IsFrom p o) (same_player m.0 p)
        (λ e. take_from-Found p i ms (ground (arith, h, e)))
        (λ e. take_from-Found p (suc i) ms (ground (arith, h, e))) in
    (keep-Found m ms _ found, keep-IsFrom p m _ from)

irand_bound : (d n : ℕ) → 0 < n → irand d n < n
irand_bound d n h = if_elim (λ x. x < n) (leb n 1) (λ _. h) (λ _. mod-lt d h)

-- How the message is read that is taken for a focus: one of several of the player in focus, erased.
abbrev pub as_read : HearParam → Option Player → List Saying → Saying → Saying
as_read hp none ms m = m
as_read hp (some p) ms m = if ltb 1 (count_from p ms) then hp.erased m else m

pub as_read-same :
    (hp : HearParam) (f : Option Player) (m : Saying) (ms ns : List Saying)
    → ((p : Player) → count_from p ms ≡ count_from p ns)
    → as_read hp f ms m ≡ as_read hp f ns m
as_read-same hp none m ms ns h = refl
as_read-same hp (some p) m ms ns h = ap (λ n. if ltb 1 n then hp.erased m else m) (h p)

-- Where the message for a focus comes from: the player in focus, if there is one with a message.
abbrev pub FromFocus : Option Player → List Saying → Saying → Type 0
FromFocus none ms m = Unit
FromFocus (some p) ms m = (count_from p ms ≡ 0) ⊎ (same_player m.0 p ≡ true)

-- The messages `ms` without one, which is read as `m`.
pub record GotAs (hp : HearParam) (f : Option Player) (ms : List Saying) (m : Saying)
    (rest : List Saying) : Type 0 where
  pub taken : Saying
  pub got : Got ms taken rest
  pub from : FromFocus f ms taken
  pub read : m ≡ as_read hp f ms taken

abbrev pub Taken : HearParam → Option Player → List Saying → Option (Saying × List Saying) → Type 0
Taken hp f ms none = ⊥
Taken hp f ms (some (m, rest)) = GotAs hp f ms m rest

unfocused-Taken :
    (hp : HearParam) (ms : List Saying) (o : Option (Saying × List Saying))
    → Found ms o
    → Taken hp none ms o
unfocused-Taken hp ms none f = f
unfocused-Taken hp ms (some (m, rest)) g = record { taken = m; got = g; from = tt; read = refl }

single-Taken :
    (hp : HearParam) (p : Player) (ms : List Saying) (o : Option (Saying × List Saying))
    → ltb 1 (count_from p ms) ≡ false
    → Found ms o
    → (count_from p ms ≡ 0) ⊎ IsFrom p o
    → Taken hp (some p) ms o
single-Taken hp p ms none few f from = f
single-Taken hp p ms (some (m, rest)) few g from = record {
  taken = m;
  got = g;
  from = from;
  read = ground (arith, few);
}

erased-Taken :
    (hp : HearParam) (p : Player) (ms : List Saying) (o : Option (Saying × List Saying))
    → ltb 1 (count_from p ms) ≡ true
    → Found ms o
    → IsFrom p o
    → Taken hp (some p) ms (read_erased hp o)
erased-Taken hp p ms none many f from = f
erased-Taken hp p ms (some (m, rest)) many g from = record {
  taken = m;
  got = g;
  from = inr from;
  read = ground (arith, many);
}

pub get_msg-Taken :
    (hp : HearParam) (f : Option Player) (d : ℕ) (ms : List Saying)
    → 0 < length ms
    → Taken hp f ms (get_msg hp f d ms)
unfolding get_msg
get_msg-Taken hp none d ms h =
    unfocused-Taken hp ms _ (take_at-Found _ ms (irand_bound d (length ms) h))
get_msg-Taken hp (some p) d ms h =
    if_elim (Taken hp (some p) ms) (count_from p ms == 0)
      (λ e.
        single-Taken hp p ms _ (ground (arith, e))
          (take_at-Found _ ms (irand_bound d (length ms) h)) (inl (ground (arith, e))))
      (λ e.
        if_elim (Taken hp (some p) ms) (count_from p ms == 1)
          (λ one.
            let (found, from) = take_from-Found p 0 ms (ground (arith, one)) in
            single-Taken hp p ms _ (ground (arith, one)) found (inr from))
          (λ more.
            let (found, from) =
              take_from-Found p _ ms (irand_bound d (count_from p ms) (ground (arith, e))) in
            erased-Taken hp p ms _ (ground (arith, e, more)) found from))
