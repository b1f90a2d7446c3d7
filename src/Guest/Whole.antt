-- ===== src/Guest/Whole.antt =====
-- A reader of the agent's file finds, at every moment of a run, a whole value.
use cnimbus.Common.{
  All, All-append, List, [], ap, inl, inr, none, refl, some, ◌++◌, ◌∙◌, ◌∷◌, ◌≡◌, ◌⊎◌,
}
use cnimbus.Common.Bytes.{Bytes}
use cnimbus.Common.Text.{Text}
use cnimbus.Guest.Atomic.{NewOrOld, Same, write_kv-NewOrOld}
use cnimbus.Guest.Files.{Files, node_at, regular}
use cnimbus.Guest.Runtime.{AgentRound, loop, write_kv}

-- The values that the rounds fetched.
pub fetched : List AgentRound → List Bytes
fetched [] = []
fetched ((none, ft) ∷ rounds) = fetched rounds
fetched ((some v, ft) ∷ rounds) = v ∷ fetched rounds

Among : Bytes → List Bytes → Type 0
Among v [] = ⊥
Among v (w ∷ vs) = (v ≡ w) ⊎ Among v vs

AllAmong-later :
    (us vs : List Bytes) (w : Bytes) → All (λ v. Among v vs) us → All (λ v. Among v (w ∷ vs)) us
unfolding Among
AllAmong-later [] vs w h = tt
AllAmong-later (u ∷ us) vs w h = (inr h.0, AllAmong-later us vs w h.1)

AllAmong-own : (vs : List Bytes) → All (λ v. Among v vs) vs
unfolding Among
AllAmong-own [] = tt
AllAmong-own (v ∷ vs) = (inl refl, AllAmong-later vs vs v (AllAmong-own vs))

-- What a reader may find: what stood there before, or a value of the list.
pub Whole : Text → Files → List Bytes → Files → Type 0
Whole path old [] fs = node_at path fs ≡ node_at path old
Whole path old (v ∷ vs) fs = (node_at path fs ≡ some (regular v)) ⊎ Whole path old vs fs

Whole-Same :
    (path : Text) (old : Files) (vs : List Bytes) (fs : Files)
    → Same path old fs
    → Whole path old vs fs
unfolding Whole
Whole-Same path old [] fs h = h
Whole-Same path old (v ∷ vs) fs h = inr (Whole-Same path old vs fs h)

Whole-new :
    (path : Text) (old : Files) (vs : List Bytes) (v : Bytes) (fs : Files)
    → Among v vs
    → node_at path fs ≡ some (regular v)
    → Whole path old vs fs
unfolding Whole Among
Whole-new path old [] v fs h e = absurd h
Whole-new path old (w ∷ vs) v fs (inl same) e = inl (e ∙ ap (λ x. some (regular x)) same)
Whole-new path old (w ∷ vs) v fs (inr later) e = inr (Whole-new path old vs v fs later e)

Whole-then :
    (path : Text) (old : Files) (vs : List Bytes) (fs next : Files)
    → Whole path old vs fs
    → Same path fs next
    → Whole path old vs next
unfolding Whole
Whole-then path old [] fs next h same = same ∙ h
Whole-then path old (v ∷ vs) fs next (inl e) same = inl (same ∙ e)
Whole-then path old (v ∷ vs) fs next (inr later) same =
    inr (Whole-then path old vs fs next later same)

Whole-round :
    (path : Text) (old : Files) (vs : List Bytes) (v : Bytes) (fs next : Files)
    → Among v vs
    → Whole path old vs fs
    → NewOrOld path v fs next
    → Whole path old vs next
Whole-round path old vs v fs next among h (inl new) = Whole-new path old vs v next among new
Whole-round path old vs v fs next among h (inr same) = Whole-then path old vs fs next h same

Whole-rounds :
    (path : Text) (old : Files) (vs : List Bytes) (v : Bytes) (fs : Files) (nexts : List Files)
    → Among v vs
    → Whole path old vs fs
    → All (NewOrOld path v fs) nexts
    → All (Whole path old vs) nexts
Whole-rounds path old vs v fs [] among h all = tt
Whole-rounds path old vs v fs (next ∷ nexts) among h all = (
  Whole-round path old vs v fs next among h all.0,
  Whole-rounds path old vs v fs nexts among h all.1,
)

loop-All :
    (path : Text) (old : Files) (vs : List Bytes) (rounds : List AgentRound) (fs : Files)
    (earlier : List Files)
    → All (λ v. Among v vs) (fetched rounds)
    → Whole path old vs fs
    → All (Whole path old vs) earlier
    → All (Whole path old vs) (loop path rounds fs earlier)
unfolding loop fetched
loop-All path old vs [] fs earlier among h all = (h, all)
loop-All path old vs ((none, ft) ∷ rounds) fs earlier among h all =
    loop-All path old vs rounds fs (fs ∷ earlier) among h (h, all)
loop-All path old vs ((some v, ft) ∷ rounds) fs earlier among h all =
    let ran = write_kv ft path v fs in
    let one = write_kv-NewOrOld ft path v fs in
    loop-All path old vs rounds ran.now (ran.before ++ earlier) among.1
      (Whole-round path old vs v fs ran.now among.0 h one.0)
      (All-append (Whole path old vs) ran.before earlier
        (Whole-rounds path old vs v fs ran.before among.0 h one.1) all)

-- After every system call of the agent's loop, whichever of them fail and wherever a write breaks
-- off, a reader of the file finds what stood there before the first round or a value that some
-- round fetched, as a whole.
pub loop-Whole :
    (path : Text) (rounds : List AgentRound) (old : Files)
    → All (Whole path old (fetched rounds)) (loop path rounds old [])
loop-Whole path rounds old =
    loop-All path old (fetched rounds) rounds old [] (AllAmong-own (fetched rounds))
      (Whole-Same path old (fetched rounds) old refl) tt
