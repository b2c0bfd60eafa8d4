-- ===== src/Web/Sound/Moves.antt =====
-- What a change of one file makes of the variables of c_code/unp/web/web.h.
use somenote.Common.{
  ℕ, zero, suc, ◌+◌, ◌≤◌, ◌<◌, ◌≡◌, refl, ap, ◌∙◌, Bool, true, false, ◌&&◌, ◌||◌, ◌==◌, ltb, not,
  some, set, get_elem?, length, arith,
}
use somenote.Web.State.{Flags, File, Web, maxline}
use somenote.Web.Files.{
  is_open, is_connecting, bit, unconnected, opening, unread, holds, dials, too_long, total,
  total-set, total-at, total_mono,
}
use somenote.Web.Connect.{get_cmd}
use somenote.Web.Sound.{View, IsUsed, IsSound}

-- A set that holds what counts, where one element is counted anew.
recount :
    (t t' a b : ℕ) (r r' : Bool)
    → r ≡ ltb 0 t
    → t ≤ 1
    → a ≤ t
    → t' + a ≡ t + b
    → r' ≡ ((r && not (ltb 0 a)) || ltb 0 b)
    → r' ≡ ltb 0 t'
recount t t' a b r r' h one le e k = ground arith

dials-le : (g : ℕ) (x : File) → dials g x ≤ holds g x
dials-le g x = by_flags x.f_flags
  where
    by_flags : (f : Flags) → bit (is_connecting f && x.f_fd == g) ≤ bit (is_open f && x.f_fd == g)
    by_flags Flags.f_none = omega arith
    by_flags Flags.f_connecting = omega arith
    by_flags Flags.f_reading = omega arith
    by_flags Flags.f_done = omega arith

holds-le : (g : ℕ) (x : File) → holds g x ≤ 1
holds-le g x = by_bit (is_open x.f_flags && x.f_fd == g)
  where
    by_bit : (b : Bool) → bit b ≤ 1
    by_bit true = omega arith
    by_bit false = omega arith

positive : (n : ℕ) → 0 < n → ltb 0 n ≡ true
positive n p = ground arith

module _ {W : Type 0} where
  -- File `i` was `x` and is `y`, and the counters and the sets follow it.
  pub record Move (v : View W) (s s' : Web W) (i : ℕ) (x y : File) : Type 0 where
    pub found : get_elem? s.files i ≡ some x
    pub name : y.f_name ≡ x.f_name
    pub files : s'.files ≡ set s.files i y
    pub to_connect : s'.nlefttoconn + unconnected x ≡ s.nlefttoconn + unconnected y
    pub connections : s'.nconn + opening x ≡ s.nconn + opening y
    pub to_read : s'.nlefttoread + unread x ≡ s.nlefttoread + unread y
    pub readers : (g : ℕ) → s'.rset g ≡ ((s.rset g && not (ltb 0 (holds g x))) || ltb 0 (holds g y))
    pub writers : (g : ℕ) → s'.wset g ≡ ((s.wset g && not (ltb 0 (dials g x))) || ltb 0 (dials g y))
    pub alone : (g : ℕ) → s.rset g ≡ true → holds g y ≤ holds g x
    pub taken : (g : ℕ) → 0 < holds g y → IsUsed v s' g
    pub room : v.room s.world + unconnected y ≤ v.room s'.world + unconnected x
    pub kept : (g : ℕ) → s.rset g ≡ true → holds g x ≡ 0 → IsUsed v s g → IsUsed v s' g

  module _ {v : View W} {s s' : Web W} {i : ℕ} {x y : File} (m : Move v s s' i x y) where
    sums : (f : File → ℕ) → total f s'.files + f x ≡ total f s.files + f y
    sums f = ap (λ l. total f l + f x) m.files ∙ total-set f s.files i x y m.found

    same_length : too_long y ≡ too_long x
    same_length = ap (λ n. bit (ltb maxline (length (get_cmd n)))) m.name

    still_alone : IsSound v s → (g : ℕ) → total (holds g) s'.files ≤ 1
    still_alone h g =
        by_old (s.rset g) (h.readers g) (sums (holds g)) (h.alone g) (holds-le g y) (m.alone g)
      where
        by_old :
            (r : Bool)
            → r ≡ ltb 0 (total (holds g) s.files)
            → total (holds g) s'.files + holds g x ≡ total (holds g) s.files + holds g y
            → total (holds g) s.files ≤ 1
            → holds g y ≤ 1
            → (r ≡ true → holds g y ≤ holds g x)
            → total (holds g) s'.files ≤ 1
        by_old true e k a b c = let d : holds g y ≤ holds g x = c refl in omega (arith, k, a, d)
        by_old false e k a b c = ground arith

    still_used : IsSound v s → (g : ℕ) → 0 < total (holds g) s'.files → IsUsed v s' g
    still_used h g q = by_new (holds g y) (holds g x) refl refl
      where
        by_new : (b a : ℕ) → holds g y ≡ b → holds g x ≡ a → IsUsed v s' g
        by_new (suc b) a e k = m.taken g (omega arith)
        by_new zero (suc a) e k = absurd (omega (arith, sums (holds g), h.alone g, e, k, q))
        by_new zero zero e k =
            let p : 0 < total (holds g) s.files = omega (arith, sums (holds g), e, k, q) in
            m.kept g (h.readers g ∙ positive _ p) k (h.used g p)

    pub Move-IsSound : IsSound v s → IsSound v s'
    Move-IsSound h = record {
      to_connect = omega (arith, sums unconnected, m.to_connect, h.to_connect);
      connections = omega (arith, sums opening, m.connections, h.connections);
      to_read = omega (arith, sums unread, m.to_read, h.to_read);
      readers = λ g.
          recount (total (holds g) s.files) (total (holds g) s'.files) (holds g x) (holds g y)
            (s.rset g) (s'.rset g) (h.readers g) (h.alone g)
            (total-at (holds g) s.files i x m.found) (sums (holds g)) (m.readers g);
      writers = λ g.
          recount (total (dials g) s.files) (total (dials g) s'.files) (dials g x) (dials g y)
            (s.wset g) (s'.wset g) (h.writers g)
            (omega (arith, total_mono (dials g) (holds g) s.files (dials-le g), h.alone g))
            (total-at (dials g) s.files i x m.found) (sums (dials g)) (m.writers g);
      alone = still_alone h;
      used = still_used h;
      short = omega (arith, sums too_long, h.short, same_length);
      enough = omega (arith, sums unconnected, m.room, h.enough);
    }
