-- ===== src/Program/Keeps.antt =====
-- What holds of every request that a program function sends, and what the function leaves alone, with
-- one rule for each way to build such a function.
use nvmetool_win.Base.{
  arith, ◌≤◌, ◌∷◌, ℕ, ◌≡◌, ◌∙◌, refl, Bool, true, false, List, if◌then◌else◌, All,
}
use nvmetool_win.Platform.{Platform, Request}
use nvmetool_win.Program.{
  World, Prog, pure, reads, allocate, allocate_local, device_io_control, get_line, touch,
  store_controller, store_smart_log, store_workaround, store_protocols, store_os, ◌>>=◌,
}

-- The requests `after` are those of `before` and, later, others that all satisfy `Q`.
pub data Added (Q : Request → Type 0) (before : List Request) : List Request → Type 0 where
  nothing : Added Q before before
  sent :
      {q : Request} {after : List Request} → Q q → Added Q before after → Added Q before (q ∷ after)

pub Added-trans :
    {Q : Request → Type 0} {a b c : List Request} → Added Q a b → Added Q b c → Added Q a c
Added-trans first nothing = first
Added-trans first (sent fits rest) = sent fits (Added-trans first rest)

pub Added-imp :
    {Q R : Request → Type 0} {a b : List Request}
    → ((q : Request) → Q q → R q)
    → Added Q a b
    → Added R a b
Added-imp f nothing = nothing
Added-imp f (sent {q} fits rest) = sent (f q fits) (Added-imp f rest)

-- Requests that all satisfied `Q` before do so afterwards.
pub Added-All : {Q : Request → Type 0} {a b : List Request} → Added Q a b → All Q a → All Q b
Added-All nothing h = h
Added-All (sent fits rest) h = (fits, Added-All rest h)

-- The data of the namespace, where they were known in `w`, are known in `w'` and still the same.
abbrev pub KeepsNamespace : World → World → Type 0
KeepsNamespace w w' =
    w.namespace_known ≡ true → (w'.namespace_known ≡ true) × (w'.namespace_data ≡ w.namespace_data)

-- Whatever the platform answers, the requests that `m` adds satisfy `Q`, the console is only read
-- onwards, and the data of the namespace are kept once they are known.
pub record Sends {ℓ} {A : Type ℓ} (Q : Request → Type 0) (m : Prog A) : Type 0 where
  pub adds : (p : Platform) (w : World) → Added Q w.issued (m p w).1.issued
  pub reads_on : (p : Platform) (w : World) → w.lines_read ≤ (m p w).1.lines_read
  pub keeps : (p : Platform) (w : World) → KeepsNamespace w (m p w).1

pub Sends-imp {ℓ} :
    {A : Type ℓ} {Q R : Request → Type 0} {m : Prog A}
    → ((q : Request) → Q q → R q)
    → Sends Q m
    → Sends R m
Sends-imp f h = record {
  adds = λ p w. Added-imp f (h.adds p w);
  reads_on = h.reads_on;
  keeps = h.keeps;
}

module _ {Q : Request → Type 0} where
  pub Sends-pure {ℓ} : {A : Type ℓ} (a : A) → Sends Q (pure a)
  unfolding ◌>>=◌
  Sends-pure a = record {
    adds = λ p w. nothing;
    reads_on = λ p w. omega arith;
    keeps = λ p w h. (h, refl);
  }

  pub Sends-reads {ℓ} : {A : Type ℓ} (f : Platform → World → A) → Sends Q (reads f)
  unfolding ◌>>=◌
  Sends-reads f = record {
    adds = λ p w. nothing;
    reads_on = λ p w. omega arith;
    keeps = λ p w h. (h, refl);
  }

  pub Sends-allocate : (n : ℕ) → Sends Q (allocate n)
  unfolding ◌>>=◌
  Sends-allocate n = record {
    adds = λ p w. nothing;
    reads_on = λ p w. omega arith;
    keeps = λ p w h. (h, refl);
  }

  pub Sends-allocate_local : (n : ℕ) → Sends Q (allocate_local n)
  unfolding ◌>>=◌
  Sends-allocate_local n = record {
    adds = λ p w. nothing;
    reads_on = λ p w. omega arith;
    keeps = λ p w h. (h, refl);
  }

  pub Sends-get_line : Sends Q get_line
  unfolding ◌>>=◌
  Sends-get_line = record {
    adds = λ p w. nothing;
    reads_on = λ p w. omega arith;
    keeps = λ p w h. (h, refl);
  }

  pub Sends-touch : (n m : ℕ) → Sends Q (touch n m)
  unfolding ◌>>=◌
  Sends-touch n m = record {
    adds = λ p w. nothing;
    reads_on = λ p w. omega arith;
    keeps = λ p w h. (h, refl);
  }

  pub Sends-store_controller : (bytes : List ℕ) → Sends Q (store_controller bytes)
  unfolding ◌>>=◌
  Sends-store_controller bytes = record {
    adds = λ p w. nothing;
    reads_on = λ p w. omega arith;
    keeps = λ p w h. (h, refl);
  }

  pub Sends-store_smart_log : (bytes : List ℕ) → Sends Q (store_smart_log bytes)
  unfolding ◌>>=◌
  Sends-store_smart_log bytes = record {
    adds = λ p w. nothing;
    reads_on = λ p w. omega arith;
    keeps = λ p w h. (h, refl);
  }

  pub Sends-store_workaround : (b : Bool) → Sends Q (store_workaround b)
  unfolding ◌>>=◌
  Sends-store_workaround b = record {
    adds = λ p w. nothing;
    reads_on = λ p w. omega arith;
    keeps = λ p w h. (h, refl);
  }

  pub Sends-store_protocols : (f : ℕ → Bool) (n : ℕ) → Sends Q (store_protocols f n)
  unfolding ◌>>=◌
  Sends-store_protocols f n = record {
    adds = λ p w. nothing;
    reads_on = λ p w. omega arith;
    keeps = λ p w h. (h, refl);
  }

  pub Sends-store_os : (b m : ℕ) → Sends Q (store_os b m)
  unfolding ◌>>=◌
  Sends-store_os b m = record {
    adds = λ p w. nothing;
    reads_on = λ p w. omega arith;
    keeps = λ p w h. (h, refl);
  }

  pub Sends-device_io_control : (q : Request) → Q q → Sends Q (device_io_control q)
  unfolding ◌>>=◌
  Sends-device_io_control q fits = record {
    adds = λ p w. sent fits nothing;
    reads_on = λ p w. omega arith;
    keeps = λ p w h. (h, refl);
  }

  pub Sends-if {ℓ} :
      {A : Type ℓ} (b : Bool) (m n : Prog A)
      → (b ≡ true → Sends Q m)
      → (b ≡ false → Sends Q n)
      → Sends Q (if b then m else n)
  Sends-if true m n hm hn = hm refl
  Sends-if false m n hm hn = hn refl

  pub Sends-bind {ℓ κ} :
      {A : Type ℓ} {B : Type κ} (m : Prog A) (f : A → Prog B)
      → Sends Q m
      → ((a : A) → Sends Q (f a))
      → Sends Q (m >>= f)
  unfolding ◌>>=◌
  Sends-bind m f hm hf = record {
    adds = λ p w. let (a, w') = m p w in Added-trans (hm.adds p w) ((hf a).adds p w');
    reads_on = λ p w. let (a, w') = m p w in omega (arith, hm.reads_on p w, (hf a).reads_on p w');
    keeps = λ p w h.
        let (a, w') = m p w in
        let (known, same) = hm.keeps p w h in
        let (known', same') = (hf a).keeps p w' known in (known', same' ∙ same);
  }

pub ruleset sends_rules = (
  Sends-pure, Sends-reads, Sends-allocate, Sends-allocate_local, Sends-get_line, Sends-touch,
  Sends-device_io_control, Sends-store_controller, Sends-store_smart_log, Sends-store_workaround,
  Sends-store_protocols, Sends-store_os, Sends-if, Sends-bind,
)
