-- ===== src/Locks.antt =====
-- locks/typescript: the lock names of the organisation. `lockKey` and `plan` of the package
-- @oresoftware/locks-and-leases are parameters. The text of src/index.ts and the built dist/index.js fill
-- placeholders in two ways, and both are modelled.
pub mod Fill
use cliptown_lib_core.Prelude.{
  ℕ, zero, suc, Bool, true, false, ◌&&◌, ◌||◌, List, [], ◌∷◌, ◌++◌, Option, none, some, ◌==◌,
  if◌then◌else◌, get_or, Result,
}
use cliptown_lib_core.Text.{Text, lit, concat}

abbrev pub org : Text
org = lit "cliptown"

pub record Layers : Type 0 where
  pub fiducia : Bool
  pub pg_advisory : Bool

pub record LockEntry : Type 0 where
  pub domain : Text
  pub name : Text
  pub layers : Layers
  pub pg_scope : Text
  pub wait : Bool

-- `key`.
unfoldable pub key {ℓ} : {K : Type ℓ} → (Text → Result K) → (domain name : Text) → Result K
key lock_key domain name = lock_key (concat (org ∷ lit "/" ∷ domain ∷ lit "/" ∷ name ∷ []))

-- `fill[i] ?? ""`.
unfoldable pub nth_text : List Text → ℕ → Text
nth_text [] i = []
nth_text (t ∷ ts) zero = t
nth_text (t ∷ ts) (suc i) = nth_text ts i

-- Whether a closing brace is ahead.
unfoldable pub closes : Text → Bool
closes [] = false
closes (c ∷ s) = c == b'}' || closes s

-- `name.split(/\{[^}]*\}/g)`: `cur` is the part so far, and the flag tells whether the scan is
-- inside a placeholder, which it enters only where the placeholder is closed.
unfoldable pub split_placeholders : Bool → Text → Text → List Text
split_placeholders inside cur [] = cur ∷ []
split_placeholders true cur (c ∷ s) =
    let next = split_placeholders false [] s in
    let more = split_placeholders true cur s in if c == b'}' then cur ∷ next else more
split_placeholders false cur (c ∷ s) =
    let opened = split_placeholders true cur s in
    let plain = split_placeholders false (cur ++ c ∷ []) s in
    if c == b'{' && closes s then opened else plain

-- `parts.map((part, index) => …).join("")`, from an index on.
unfoldable pub fill_parts : List Text → ℕ → List Text → Text
fill_parts fill i [] = []
fill_parts fill i (part ∷ []) = part
fill_parts fill i (part ∷ next ∷ parts) =
    part ++ nth_text fill i ++ fill_parts fill (suc i) (next ∷ parts)

-- `entryKey` of src/index.ts.
unfoldable pub entry_key {ℓ} : {K : Type ℓ} → (Text → Result K) → LockEntry → List Text → Result K
entry_key lock_key entry fill =
    key lock_key entry.domain (fill_parts fill 0 (split_placeholders false [] entry.name))

-- `entry.name.replace(/\{[^}]*\}/g, () => fill[i++] ?? "")`.
unfoldable pub replace_placeholders : List Text → Bool → ℕ → Text → Text
replace_placeholders fill inside i [] = []
replace_placeholders fill true i (c ∷ s) =
    let next = replace_placeholders fill false i s in
    let more = replace_placeholders fill true i s in if c == b'}' then next else more
replace_placeholders fill false i (c ∷ s) =
    let opened = replace_placeholders fill true (suc i) s in
    let plain = replace_placeholders fill false i s in
    if c == b'{' && closes s then nth_text fill i ++ opened else c ∷ plain

-- `entryKey` of dist/index.js.
unfoldable pub built_entry_key {ℓ} :
    {K : Type ℓ} → (Text → Result K) → LockEntry → List Text → Result K
built_entry_key lock_key entry fill =
    key lock_key entry.domain (replace_placeholders fill false 0 entry.name)

-- `entryPlan`.
unfoldable pub entry_plan {ℓ} : {P : Type ℓ} → (Layers → Text → Bool → P) → LockEntry → P
entry_plan plan entry = plan entry.layers entry.pg_scope entry.wait

abbrev pub both_layers : Layers
both_layers = record { fiducia = true; pg_advisory = true }

-- `catalog`.
abbrev pub catalog : List (Text × LockEntry)
catalog =
    (
      lit "migrations_apply",
      record {
        domain = lit "migrations";
        name = lit "apply";
        layers = both_layers;
        pg_scope = lit "session";
        wait = false;
      },
    )
    ∷ (
      lit "jobs_singleton_job",
      record {
        domain = lit "jobs";
        name = lit "singleton:{job}";
        layers = both_layers;
        pg_scope = lit "transaction";
        wait = false;
      },
    )
    ∷ (
      lit "outbox_drain",
      record {
        domain = lit "outbox";
        name = lit "drain";
        layers = record { fiducia = false; pg_advisory = true };
        pg_scope = lit "transaction";
        wait = false;
      },
    )
    ∷ (
      lit "tenant_tenant_id_mutate",
      record {
        domain = lit "tenant";
        name = lit "{tenant_id}/mutate";
        layers = both_layers;
        pg_scope = lit "transaction";
        wait = true;
      },
    )
    ∷ []
