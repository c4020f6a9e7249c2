-- ===== src/Optics/Lenses.antt =====
-- The lenses in memory and the doubly linked list of src/lens.c and src/optics.c. A pointer is a
-- number and 0 is NULL. `none` is a fault: a read through a dangling pointer, a second free, or the
-- abort of a failed assertion.
use optics_light.Lens.{Lens}
use optics_light.Prelude.{ℕ, Option, none, some, ◌==◌, if◌then◌else◌}

abbrev pub Heap : Type 0 → Type 0
Heap D = ℕ → Option (Lens D)

infixl 5 ◌>>=◌
abbrev pub ◌>>=◌ : {A B : Type 0} → Option A → (A → Option B) → Option B
none >>= f = none
some a >>= f = f a

module _ {D : Type 0} where
  abbrev pub update : Heap D → ℕ → Option (Lens D) → Heap D
  update h p l q = if p == q then l else h q

  -- `lens_free`, and `free` of a deferred lens
  unfoldable pub lens_free : Heap D → ℕ → Option (Heap D)
  lens_free h p = do l ← h p; some (update h p none)

  unfoldable pub lens_next : Heap D → ℕ → Option ℕ
  lens_next h p = do l ← h p; some l.next

  -- `next->prev = lens`, after the assertion that `next` heads the list.
  unfoldable pub link_back : Heap D → ℕ → ℕ → Option (Heap D)
  link_back h lens next = if next == 0 then some h else (do
    n ← h next
    if n.prev == 0 then some (update h next (some (record n { prev = lens }))) else none)

  unfoldable pub lens_set_next : Heap D → ℕ → ℕ → Option (Heap D)
  lens_set_next h lens next = do
    l ← h lens
    link_back (update h lens (some (record l { next = next }))) lens next

  -- `next->prev = lens->prev`
  unfoldable pub skip_back : Heap D → ℕ → ℕ → ℕ → Option (Heap D)
  skip_back h lens next prev = if next == 0 then some h else (do
    n ← h next
    if n.prev == lens then some (update h next (some (record n { prev = prev }))) else none)

  -- `prev->next = next`
  unfoldable pub skip_forth : Heap D → ℕ → ℕ → ℕ → Option (Heap D)
  skip_forth h lens next prev = if prev == 0 then some h else (do
    b ← h prev
    if b.next == lens then some (update h prev (some (record b { next = next }))) else none)

  unfoldable pub lens_kill : Heap D → ℕ → Option (Heap D)
  lens_kill h lens = do
    l ← h lens
    h' ← skip_back h lens l.next l.prev
    skip_forth h' lens l.next l.prev
