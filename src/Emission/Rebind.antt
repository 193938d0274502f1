-- ===== src/Emission/Rebind.antt =====
-- internal/emission/outbox.go: `(*Manager).RebindByFingerprint`, which moves the pending entries and
-- the watermarks of a subscription to the subscription id of a new client. `resolve` is the part that
-- finds the old and the new id, `move` the part that moves. The empty string stands for "not found",
-- as in the code. The gauges are not touched by it.
pub mod Move
pub mod Valid
pub mod Resolve
mod Tests
use Prim.Native.String.{len, slice, ◌++◌}
use text.Mathlib.Text.{starts_with}
use seven_db.Common.{
  ℕ, ◌-◌, String, Bool, true, false, not, Option, none, some, List, [], ◌∷◌, if◌then◌else◌, ◌&&◌,
  ◌||◌, ltb, nat_beq,
}
use seven_db.Common.Comparable.{◌==◌, nat_key, string_key}
use seven_db.Common.GoMap.{GoMap, get, put, remove, has, size, keys}
use seven_db.Common.Strconv.{
  Parsed, parsed, syntax_error, range_error, parse_uint, format_uint, split_colon,
}
use seven_db.Emission.Types.{EmitSeq, is_newer}
use seven_db.Emission.Outbox.{OutboxEntry, Entries, or_make}
use seven_db.Emission.Manager.{Manager}

-- clientID + ":" + …
abbrev pub sub_of : String → String → String
sub_of client part = client ++ (":" ++ part)

-- the first key that passes the test, in the order in which the map is visited
unfoldable pub first_key : (String → Bool) → List String → String
first_key test [] = ""
first_key test (k ∷ ks) = let rest = first_key test ks in if test k then k else rest

-- `a`, or `b` if nothing was found
abbrev or_else : String → String → String
or_else a b = if a == "" then b else a

-- the subscription occurs in the outbox or in a watermark
abbrev pub knows : Manager → String → Bool
knows m sub = has m.ob.by_sub sub || (has m.last_ack sub || has m.compact_through sub)

-- the three searches, in the order of the code
unfoldable pub find_sub : (String → Bool) → Manager → String
unfolding first_key
find_sub test m =
    or_else (first_key test (keys m.ob.by_sub))
      (or_else (first_key test (keys m.last_ack)) (first_key test (keys m.compact_through)))

-- strings.HasPrefix(sub, oldClientID+":")
abbrev pub by_prefix : String → String → Bool
by_prefix old_client sub = starts_with sub (old_client ++ ":")

-- len(sub) > len(fpSuffix) && sub[len(sub)-len(fpSuffix):] == fpSuffix
abbrev pub by_suffix : ℕ → String → Bool
by_suffix fp sub =
    let suffix = ":" ++ format_uint fp in
    ltb (len suffix) (len sub) && (slice sub (len sub - len suffix) (len sub) == suffix)

pub record Resolved : Type 0 where
  pub old_sub : String
  pub new_sub : String
  pub fp : ℕ

-- fp != 0: the exact id of the old client, if it is known
unfoldable pub resolve_exact : Manager → ℕ → String → String → Resolved
resolve_exact m fp old_client new_client = record {
  old_sub =
      if old_client == ""
      then ""
      else let candidate = sub_of old_client (format_uint fp) in
        if knows m candidate then candidate else "";
  new_sub = sub_of new_client (format_uint fp);
  fp = fp;
}

-- the fingerprint read off the old id, if it has one
unfoldable pub infer_fp : String → String → Option (String × String) → Resolved
infer_fp old new_client none = record { old_sub = old; new_sub = ""; fp = 0 }
infer_fp old new_client (some (a, b)) = elim (parse_uint b) [
  | parsed v ↦ record { old_sub = old; new_sub = sub_of new_client b; fp = v }
  | _ ↦ record { old_sub = old; new_sub = ""; fp = 0 }
]

-- fp == 0: any id of the old client, from which the fingerprint is read
unfoldable pub resolve_prefix : Manager → String → String → Resolved
resolve_prefix m old_client new_client =
    if old_client == ""
    then record { old_sub = ""; new_sub = ""; fp = 0 }
    else let old = find_sub (by_prefix old_client) m in
      if old == ""
      then record { old_sub = ""; new_sub = ""; fp = 0 }
      else infer_fp old new_client (split_colon old)

-- the fallback: any id with the fingerprint
unfoldable pub resolve_suffix : Manager → Resolved → Resolved
resolve_suffix m r =
    if (r.old_sub == "") && not (nat_beq r.fp 0)
    then record r { old_sub = find_sub (by_suffix r.fp) m }
    else r

unfoldable pub resolve : Manager → ℕ → String → String → Resolved
resolve m fp old_client new_client = resolve_suffix m (
    if nat_beq fp 0
    then resolve_prefix m old_client new_client
    else resolve_exact m fp old_client new_client)

-- e.SubID = newSub; m.ob.bySub[newSub][idx] = e, for each entry of the old map
unfoldable pub merge : String → Entries → Entries → Entries
merge new [] target = target
merge new ((idx, e) ∷ m) target = merge new m (put target idx (record e { sub_id = new }))

unfoldable pub move_entries : String → String → Manager → Manager × ℕ
move_entries old new m = elim (get m.ob.by_sub old) [
  | none ↦ (m, 0)
  | some entries ↦ (
    record m {
      ob = record (m.ob) {
        by_sub =
            remove (put m.ob.by_sub new (merge new entries (or_make (get m.ob.by_sub new)))) old;
      };
    },
    size entries,
  )
]

abbrev newer_than : EmitSeq → Option EmitSeq → Bool
newer_than v none = true
newer_than v (some cur) = is_newer v cur

-- the move of one watermark
unfoldable pub move_mark : String → String → GoMap String EmitSeq → GoMap String EmitSeq
move_mark old new marks = elim (get marks old) [
  | none ↦ marks
  | some v ↦ remove (if newer_than v (get marks new) then put marks new v else marks) old
]

unfoldable pub move : String → String → Manager → Manager × ℕ
move old new m =
    let (m', moved) = move_entries old new m in
    (
      record m' {
        last_ack = move_mark old new m'.last_ack;
        compact_through = move_mark old new m'.compact_through;
      },
      moved,
    )

-- the tail of the function, for the ids found
unfoldable pub rebind_to : String → String → Manager → Manager × String × String × ℕ
rebind_to old new m =
    if old == new
    then (m, old, new, 0)
    else let (m', moved) = move old new m in (m', old, new, moved)

-- the new id read off the old one, where it was not set before
unfoldable pub rebind_suffix :
    Manager → String → String → Option (String × String) → Manager × String × String × ℕ
rebind_suffix m old new_client none = (m, "", "", 0)
rebind_suffix m old new_client (some (a, b)) = rebind_to old (sub_of new_client b) m

-- RebindByFingerprint: the old id, the new id and the number of entries moved
unfoldable pub rebind_by_fingerprint : ℕ → String → String → Manager → Manager × String × String × ℕ
rebind_by_fingerprint fp old_client new_client m =
    let r = resolve m fp old_client new_client in
    if r.old_sub == ""
    then (
      m,
      "",
      if (r.new_sub == "") && not (nat_beq r.fp 0)
          then sub_of new_client (format_uint r.fp)
          else r.new_sub,
      0,
    )
    else if r.new_sub == ""
    then rebind_suffix m r.old_sub new_client (split_colon r.old_sub)
    else rebind_to r.old_sub r.new_sub m
