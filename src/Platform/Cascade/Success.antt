-- ===== src/Platform/Cascade/Success.antt =====
-- Actions that succeed, and what holds of the tables after them.
use sarra.Common.{String, ◌≡◌, refl, ap, Bool, true, List, [], ◌∷◌, All, filter, not}
use mathlib.Core.Path.{subst}
use sarra.Value.{Value}
use sarra.Platform.Codec.{Row}
use sarra.Platform.Table.{ok, Db, Catalog, has_uuid, delete}
use sarra.Platform.Table.Laws.{set_table_same}
use sarra.Platform.Cascade.{Action, ◌▷◌, execute, attempt, for_each, purge}
use sarra.Platform.Cascade.Steps.{
  Absent, Takes, Shrinks, then-Takes, for_each-Takes, refers, purge_lem, any-filter_self,
}

pub Shrinks-stay : (d : Db) → Shrinks d d
Shrinks-stay d t p h = h

pub Shrinks-trans : (d e f : Db) → Shrinks d e → Shrinks e f → Shrinks d f
Shrinks-trans d e f h k t p a = k t p (h t p a)

pub then-Shrinks {ℓ κ} :
    {A : Type ℓ} {B : Type κ} (m : Action A) (f : A → Action B)
    → Takes Shrinks m
    → ((a : A) → Takes Shrinks (f a))
    → Takes Shrinks (m ▷ f)
then-Shrinks m f = then-Takes Shrinks Shrinks-stay Shrinks-trans m f

pub each-Shrinks {ℓ κ} :
    {A : Type ℓ} {B : Type κ} (xs : List A) (f : A → Action B)
    → ((a : A) → Takes Shrinks (f a))
    → Takes Shrinks (for_each xs f)
each-Shrinks xs f = for_each-Takes Shrinks Shrinks-stay Shrinks-trans xs f

-- The action succeeds on these tables, and the tables after it have a property.
abbrev pub EnsuresAt {ℓ} : {A : Type ℓ} → Db → Action A → (Db → Type 0) → Type ℓ
EnsuresAt {A = A} db m q = (a : A) × (d : Db) × (m db ≡ (ok a, d)) × q d

abbrev pub Ensures {ℓ} : {A : Type ℓ} → Action A → (Db → Type 0) → Type ℓ
Ensures m q = (db : Db) → EnsuresAt db m q

-- A property of the tables that taking rows away keeps.
abbrev pub Lasting : (Db → Type 0) → Type 0
Lasting q = (d e : Db) → Shrinks d e → q d → q e

-- One action after another, where the second is known to succeed on the tables that the first leaves.
pub then_ensures_at {ℓ κ} :
    {A : Type ℓ} {B : Type κ} (q r : Db → Type 0) (m : Action A) (f : A → Action B) (db : Db)
    → EnsuresAt db m q
    → ((a : A) → Takes Shrinks (f a))
    → Lasting q
    → ((a : A) → EnsuresAt (m db).1 (f a) r)
    → EnsuresAt db (m ▷ f) (λ d. q d × r d)
then_ensures_at q r m f db hm s last hf =
    let (a, d, e, h) = hm in
    let (b, d2, e2, k) = subst (λ x. EnsuresAt x.1 (f a) r) e (hf a) in
    (b, d2, rw e e2, (last d d2 (subst (λ x. Shrinks d x.1) e2 (s a d)) h, k))

pub then_ensures {ℓ κ} :
    {A : Type ℓ} {B : Type κ} (q r : Db → Type 0) (m : Action A) (f : A → Action B) (db : Db)
    → EnsuresAt db m q
    → ((a : A) → Takes Shrinks (f a))
    → Lasting q
    → ((a : A) → Ensures (f a) r)
    → EnsuresAt db (m ▷ f) (λ d. q d × r d)
then_ensures q r m f db hm s last hf = then_ensures_at q r m f db hm s last (λ a. hf a (m db).1)

pub attempt_ensures {ℓ} :
    {A : Type ℓ} (q : Db → Type 0) (m : Action A) → Ensures m q → Ensures (attempt m) q
attempt_ensures q m h db = let (a, d, e, k) = h db in (true, d, rw e refl, k)

pub for_each_ensures {ℓ κ} :
    {A : Type ℓ} {B : Type κ} (q : A → Db → Type 0) (xs : List A) (f : A → Action B)
    → ((x : A) → Takes Shrinks (f x))
    → ((x : A) → Lasting (q x))
    → All (λ x. Ensures (f x) (q x)) xs
    → Ensures (for_each xs f) (λ d. All (λ x. q x d) xs)
unfolding for_each
for_each_ensures q [] f s last h db = (true, db, refl, tt)
for_each_ensures q (x ∷ xs) f s last (h, hs) db =
    then_ensures (q x) (λ d. All (λ y. q y d) xs) (f x) (λ _. for_each xs f) db (h db)
      (λ _. each-Shrinks xs f s) (last x) (λ _. for_each_ensures q xs f s last hs)

pub All-of {ℓ κ} : {A : Type ℓ} (p : A → Type κ) → ((x : A) → p x) → (xs : List A) → All p xs
All-of p h [] = tt
All-of p h (x ∷ xs) = (h x, All-of p h xs)

pub All-lasting {ℓ} :
    {A : Type ℓ} (q : A → Db → Type 0) (xs : List A)
    → ((x : A) → Lasting (q x))
    → Lasting (λ d. All (λ x. q x d) xs)
All-lasting q [] last d e s h = tt
All-lasting q (x ∷ xs) last d e s (h, k) = (last x d e s h, All-lasting q xs last d e s k)

pub Absent-lasting : (table : String) (p : Row → Bool) → Lasting (Absent table p)
Absent-lasting table p d e s h = s table p h

pub purge_ensures :
    (cat : Catalog) (table key : String) (v : Value)
    → cat.known table ≡ true
    → cat.columns table key ≡ true
    → Ensures (purge cat table key v) (Absent table (refers key v))
purge_ensures cat table key v k c db =
    let (n, e, h) = purge_lem cat table key v k c db in
    (n, (purge cat table key v db).1, ap (λ x. (x, (purge cat table key v db).1)) e, h)

pub delete_ensures :
    (cat : Catalog) (table uuid : String)
    → cat.known table ≡ true
    → Ensures (execute (delete cat table uuid)) (Absent table (has_uuid uuid))
unfolding delete
delete_ensures cat table uuid k db = rw k (
  _,
  _,
  refl,
  rw (set_table_same db table (filter (λ row. not (has_uuid uuid row)) (db table)))
      (any-filter_self (has_uuid uuid) (has_uuid uuid) (db table) (λ row. refl)),
)

pub pair_lasting : (q r : Db → Type 0) → Lasting q → Lasting r → Lasting (λ d. q d × r d)
pair_lasting q r hq hr d e s (x, y) = (hq d e s x, hr d e s y)
