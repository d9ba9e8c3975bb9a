-- ===== src/Walk/Tell.antt =====
-- What `WalkAndNotify` has to tell the hooks of a text, by recursion on the text's derivation in the
-- JSON grammar, without the scanner and its positions.
use rhine.Scanner.Grammar.{
  Value, ArrayBody, ArrayTail, ObjectBody, Members, MemberValue, ObjectTail,
}
use rhine.Walk.Notify.{StateHook, World, Looked, Notified, notified, lookup_error, notify_hooks}
use rhine.Walk.Loop.{KeyPath, write, WalkError, err_max_path, lookup_failed, max_path_depth, join}
use rhine.Prelude.{suc, ℕ, ◌-◌, Bytes, List, length, take, ltb, if◌then◌else◌, none}

-- The path's slices and the channels.
pub record Told (P : Type 0) : Type 0 where
  pub path : KeyPath
  pub world : World P

pub data Telling (P E : Type 0) : Type 0 where
  going : Told P → Telling P E
  halted : World P → WalkError E → Telling P E

-- The bytes of a text up to those that follow a colon, without the colon and the byte before it.
abbrev pub key_before : Bytes → Bytes → Bytes
key_before from behind = take (length from - length behind - 2) from

module _ {P E : Type 0} where
  abbrev pub then_tell : Telling P E → (Told P → Telling P E) → Telling P E
  then_tell (going t) rest = rest t
  then_tell (halted w e) rest = halted w e

  abbrev pub after_hooks : KeyPath → Notified P E → Telling P E
  after_hooks path (notified world) = going (record { path = path; world = world })
  after_hooks path (lookup_error world e) = halted world (lookup_failed e)

module _ {P E : Type 0} (lookup : Bytes → Looked P E) (hooks : Bytes → List StateHook) where
  -- A key in so many containers: its entry of the path is written, and the hooks are told.
  unfoldable pub tell_key : ℕ → Bytes → Told P → Telling P E
  tell_key depth key t =
      if ltb max_path_depth depth
      then halted t.world err_max_path
      else let path = write t.path (depth - 1) key in
        let cur_path = join (take depth path.items) in
        after_hooks path (notify_hooks lookup cur_path none (hooks cur_path) t.world)

  -- The keys of a value in so many containers, in the order of the text. Only an object's keys
  -- write the path; an array is one more container.
  unfoldable mutual
    unfolding tell_key

    pub tell_value : {xs r : Bytes} → Value xs r → ℕ → Told P → Telling P E
    tell_value (Value.blank e v) d t = tell_value v d t
    tell_value (Value.object e b) d t = tell_object b (suc d) t
    tell_value (Value.array e b) d t = tell_array b (suc d) t
    tell_value (Value.string e k) d t = going t
    tell_value (Value.negative e u) d t = going t
    tell_value (Value.number u) d t = going t
    tell_value (Value.true_word e w) d t = going t
    tell_value (Value.false_word e w) d t = going t
    tell_value (Value.null_word e w) d t = going t

    pub tell_array : {xs r : Bytes} → ArrayBody xs r → ℕ → Told P → Telling P E
    tell_array (ArrayBody.empty_array k) d t = going t
    tell_array (ArrayBody.elements v u) d t = then_tell (tell_value v d t) (tell_elements u d)

    pub tell_elements : {xs r : Bytes} → ArrayTail xs r → ℕ → Told P → Telling P E
    tell_elements (ArrayTail.close_array k) d t = going t
    tell_elements (ArrayTail.next_element k v u) d t =
        then_tell (tell_value v d t) (tell_elements u d)

    pub tell_object : {xs r : Bytes} → ObjectBody xs r → ℕ → Told P → Telling P E
    tell_object (ObjectBody.empty_object k) d t = going t
    tell_object (ObjectBody.members m) d t = tell_members m d t

    pub tell_members : {xs r : Bytes} → Members xs r → ℕ → Told P → Telling P E
    tell_members (Members.member {ys} q k v) d t = tell_member ys v d t

    -- The key stands in the text that is given.
    pub tell_member : {xs r : Bytes} → Bytes → MemberValue xs r → ℕ → Told P → Telling P E
    tell_member from (MemberValue.colon {ys} q v u) d t =
        then_tell (tell_key d (key_before from ys) t)
          (λ t'. then_tell (tell_value v d t') (tell_tail u d))

    pub tell_tail : {xs r : Bytes} → ObjectTail xs r → ℕ → Told P → Telling P E
    tell_tail (ObjectTail.close_object k) d t = going t
    tell_tail (ObjectTail.next_member k m) d t = tell_members m d t
