-- ===== src/Server/Feed/Turned.antt =====
-- src/server.c: what `ntohl` in place does to a number, where the bytes of the payload are not known.
use mathlib.Core.Path.{subst}
use sleepytext.Prelude.{ℕ, ◌+◌, ◌*◌, ◌/◌, ◌%◌, ◌^◌, ◌≡◌, ◌≢◌, refl, ◌∙◌, arith}
use sleepytext.Prelude.Words.{u32_mod}
use sleepytext.Memory.{Ptr, Mem, ◌+p◌, ok}
use sleepytext.Memory.Ends.{After, Ends, Ends-bind, Ends-pure, load-Ends, Holds-Same}
use sleepytext.Bytes.{Bytes}
use sleepytext.Prelude.{inl}
use sleepytext.Memory.Holds.{Holds, Holds-load, Holds-tail, +p-+p}
use sleepytext.Bytes.Ends.{Writes, write_bytes-Ends}
use sleepytext.Server.Wire.{le32, load_net32, ntohl_in_place}

-- The number whose four bytes stand in the other order.
abbrev pub turned : ℕ → ℕ
turned v =
    (v % 256) * 2 ^ 24 + (v / 2 ^ 8 % 256) * 2 ^ 16 + (v / 2 ^ 16 % 256) * 2 ^ 8 + v / 2 ^ 24 % 256

pub load_net32-Ends : (p : Ptr) (m : Mem) → Ends m (load_net32 p) (λ v m'. m' ≡ m)
unfolding load_net32
load_net32-Ends p m = Ends-bind (load-Ends p m) λ b0 m0 e0.
    Ends-bind (load-Ends (p +p 1) m0) λ b1 m1 e1. Ends-bind (load-Ends (p +p 2) m1) λ b2 m2 e2.
      Ends-bind (load-Ends (p +p 3) m2)
        λ b3 m3 e3. Ends-pure (b0 * 2 ^ 24 + b1 * 2 ^ 16 + b2 * 2 ^ 8 + b3) (e3 ∙ e2 ∙ e1 ∙ e0)

pub ntohl_in_place-Ends : (p : Ptr) (m : Mem) → Ends m (ntohl_in_place p) (λ v. Writes p (le32 v) m)
unfolding ntohl_in_place
ntohl_in_place-Ends p m = Ends-bind (load_net32-Ends p m) λ v m1 same.
    Ends-bind (write_bytes-Ends p (le32 v) m1)
      λ u m2 wrote. Ends-pure v (subst (λ n. Writes p (le32 v) n m2) same wrote)

load_net32-turned :
    {m : Mem} {p : Ptr} (v : ℕ) → Holds m p (le32 v) → load_net32 p m ≡ ok (turned v) m
unfolding load_net32
load_net32-turned {m} {p} v h =
    let h1 = Holds-tail h in
    let h2 = rw (+p-+p p 1 1) at (Holds-tail h1) in
    let h3 = rw (+p-+p p 2 1) at (Holds-tail h2) in
    rw (Holds-load h, Holds-load h1, Holds-load h2, Holds-load h3) refl

pub ntohl_in_place-turned :
    {m : Mem} {p : Ptr} (v : ℕ)
    → Holds m p (le32 v)
    → Ends m (ntohl_in_place p) (λ v' m'. (v' ≡ turned v) × Writes p (le32 v') m m')
unfolding ntohl_in_place
ntohl_in_place-turned {m} {p} v h =
    Ends-bind {Q = λ v' m'. (v' ≡ turned v) × (m' ≡ m)}
      (record { after = rw (After, load_net32-turned v h) (refl, refl) })
      λ v' m1 read.
        Ends-bind (write_bytes-Ends p (le32 v') m1)
          λ u m2 wrote. Ends-pure v' (read.0, subst (λ n. Writes p (le32 v') n m2) read.1 wrote)

-- The length of a change does not wrap to 0 in both byte orders.
pub not_both : (v w : ℕ) → (13 + v + w) % u32_mod ≡ 0 → (13 + turned v + turned w) % u32_mod ≢ 0
not_both v w wraps = omega arith

-- The lengths of the change at the start of the payload were turned round, and wrapped before.
pub record Turned (p : Bytes) (m : Mem) : Type 0 where
  pub last : ℕ
  pub now : ℕ
  pub wrapped : (13 + last + now) % u32_mod ≡ 0
  pub holds_last : Holds m (p.ptr +p 5) (le32 last)
  pub holds_now : Holds m (p.ptr +p 9) (le32 now)

-- The two lengths, turned round one behind the other.
pub both-Turned :
    (p : Bytes) (m : Mem) {m1 m2 : Mem} (last now : ℕ)
    → Writes (p.ptr +p 5) (le32 last) m m1
    → Writes (p.ptr +p 9) (le32 now) m1 m2
    → (13 + last + now) % u32_mod ≡ 0
    → Turned p m2
both-Turned p m last now w w' wraps = record {
  last = last;
  now = now;
  wrapped = wraps;
  holds_last = Holds-Same (p.ptr +p 9) 4 (p.ptr.off + 5) (le32 last) w'.1 w.0 (inl (omega arith));
  holds_now = w'.0;
}
