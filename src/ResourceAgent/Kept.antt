-- ===== src/ResourceAgent/Kept.antt =====
-- services/resource_agent/main.py: what a restart of the agent keeps of a node.
use cloud_multi_agent_manage.Prelude.{
  ℕ, suc, String, List, All, str_eq, eq_iff, ◌≡◌, refl, ap, ◌∙◌, false, some, [], ◌∷◌, arith, true,
}
use cloud_multi_agent_manage.Prelude.Int.{ℤ, pos}
use cloud_multi_agent_manage.Value.{
  Value, Payload, Hash, dict, empty, get_or, lookup, hash_lookup, hash_insert, hash_update,
}
use cloud_multi_agent_manage.Value.Laws.{hash_lookup-insert}
use cloud_multi_agent_manage.Key.{node}
use cloud_multi_agent_manage.Platform.{Platform, ok, err, wrong_type}
use cloud_multi_agent_manage.Platform.Laws.{
  IsRedis, Entry, hash, type_entry, hgetall_entry, hset_entry, written,
}
use cloud_multi_agent_manage.Platform.Results.{>>=-ok}
use cloud_multi_agent_manage.Python.{text_of, is_one_of}
use cloud_multi_agent_manage.Exec.{World}
use cloud_multi_agent_manage.ResourceAgent.Nodes.{
  item, label_of, encode, node_mapping, existing_hash, initialize_node, kept,
}

-- An update that writes nothing else under a name than what is there leaves that field.
hash_lookup-hash_update :
    (k v : String) (m h : Hash)
    → All (λ e. str_eq e.0 k ≡ true → e.1 ≡ v) m
    → hash_lookup k h ≡ some v
    → hash_lookup k (hash_update h m) ≡ some v
unfolding hash_update
hash_lookup-hash_update k v [] h a l = l
hash_lookup-hash_update k v ((j, w) ∷ m) h (a, rest) l =
    hash_lookup-hash_update k v m (hash_insert j w h) rest
      (ground (arith, hash_lookup-insert j k w h))

hset_entry-refused :
    {F : Type 0} (m : Hash) (x : Entry F)
    → str_eq (type_entry x) "hash" ≡ false
    → str_eq (type_entry x) "none" ≡ false
    → hset_entry m x ≡ err wrong_type
hset_entry-refused m Entry.absent a b = cc
hset_entry-refused m (Entry.string t) a b = refl
hset_entry-refused m (hash h) a b = cc
hset_entry-refused m (Entry.set l) a b = refl
hset_entry-refused m (Entry.zset z) a b = refl

value-ok : {A : Type 0} {a b : A} → ok a ≡ ok b → b ≡ a
value-ok h = cc

-- The fields that a start takes over from the hash that is there.
abbrev pub usage_fields : List String
usage_fields = "status" ∷ "cpu_used" ∷ "ram_used_mb" ∷ []

module _ ⦃p : Platform⦄ where
  open p use {F}

  abbrev mapping_of : String → String → String → String → String → Hash → Hash
  mapping_of i c r g z existing =
      ("node_id", i)
      ∷ ("status", kept "status" "ready" existing)
      ∷ ("cpu_total", c)
      ∷ ("ram_total_mb", r)
      ∷ ("cpu_used", kept "cpu_used" "0" existing)
      ∷ ("ram_used_mb", kept "ram_used_mb" "0" existing)
      ∷ ("gpu", g)
      ∷ ("zone", z)
      ∷ []

  -- A written name is one of the three that are kept, or the field is another one.
  kept-same :
      (j fallback k v : String) (h : Hash)
      → hash_lookup k h ≡ some v
      → str_eq j k ≡ true
      → kept j fallback h ≡ v
  kept-same j fallback k v h l e =
      let q : hash_lookup j h ≡ some v = rw ((eq_iff j k).0 e) l in rw (kept, q) refl

  other-field :
      (j k t v : String)
      → is_one_of k usage_fields ≡ true
      → is_one_of j usage_fields ≡ false
      → str_eq j k ≡ true
      → t ≡ v
  other-field j k t v o n e =
      let q : is_one_of j usage_fields ≡ true = rw ((eq_iff j k).0 e) o in cc

  hash_lookup-mapping_of :
      (i c r g z k v : String) (h : Hash)
      → is_one_of k usage_fields ≡ true
      → hash_lookup k h ≡ some v
      → hash_lookup k (hash_update h (mapping_of i c r g z h)) ≡ some v
  hash_lookup-mapping_of i c r g z k v h o l =
      hash_lookup-hash_update k v (mapping_of i c r g z h) h
        (
          other-field "node_id" k i v o refl,
          (
            kept-same "status" "ready" k v h l,
            (
              other-field "cpu_total" k c v o refl,
              (
                other-field "ram_total_mb" k r v o refl,
                (
                  kept-same "cpu_used" "0" k v h l,
                  (
                    kept-same "ram_used_mb" "0" k v h l,
                    (other-field "gpu" k g v o refl, (other-field "zone" k z v o refl, tt)),
                  ),
                ),
              ),
            ),
          ),
        )
        l

  mapping_of-node_mapping :
      (d : Payload F) (h m : Hash)
      → node_mapping d h ≡ ok m
      → (i c r g z : String) × (m ≡ mapping_of i c r g z h)
  unfolding node_mapping
  mapping_of-node_mapping d h m e =
      let (n, e1, _) = >>=-ok _ (item "id" d) e in
      let (c, e2, _) = >>=-ok _ (item "cpu_total" d) e1 in
      let (r, e3, _) = >>=-ok _ (item "ram_total_mb" d) e2 in
      let (l, e4, _) = >>=-ok _ (label_of (get_or "labels" (dict empty) d) "gpu" "false") e3 in
      let (o, e5, _) = >>=-ok _ (label_of (get_or "labels" (dict empty) d) "zone" "unknown") e4 in
      let (i, e6, _) = >>=-ok _ (encode n) e5 in
      let (g, e7, _) = >>=-ok _ (encode l) e6 in
      let (z, e8, _) = >>=-ok _ (encode o) e7 in (i, text_of c, text_of r, g, z, value-ok e8)

  initialize_node_lem :
      (laws : IsRedis) (d : Payload F) (id : Value F) (h m : Hash) (ttl : ℤ) (w : World)
      → lookup "id" d ≡ some id
      → laws.view (node (text_of id)) w.redis ≡ hash h
      → node_mapping d h ≡ ok m
      → let k = node (text_of id) in
        initialize_node ttl (dict d) w ≡ (
          ok tt,
          record w { redis = p.redis_expire k ttl (laws.write k (hash (hash_update h m)) w.redis) },
        )
  unfolding initialize_node existing_hash
  initialize_node_lem laws d id h m ttl w i v e =
      let k = node (text_of id) in
      let n : item "id" d ≡ ok id = ground arith in
      let t : p.redis_type k w.redis ≡ "hash" = laws.type_lem k w.redis ∙ ap type_entry v in
      let g : p.redis_hgetall k w.redis ≡ ok h = laws.hgetall_lem k w.redis ∙ ap hgetall_entry v in
      let s : p.redis_hset k m w.redis ≡ ok (laws.write k (hash (hash_update h m)) w.redis) =
        laws.hset_lem k m w.redis
        ∙ ap (written (λ e. laws.write k e w.redis)) (ap (hset_entry m) v) in
      rw (n, t, g, e, s) refl

  -- A start of the agent, on a node whose hash is there, succeeds where its configuration is complete,
  -- and keeps the node's status and its used CPU and memory.
  pub initialize_node-kept :
      (laws : IsRedis) (d : Payload F) (id : Value F) (h m : Hash) (ttl : ℕ) (w : World)
      → lookup "id" d ≡ some id
      → laws.view (node (text_of id)) w.redis ≡ hash h
      → node_mapping d h ≡ ok m
      → let (r, v) = initialize_node (pos (suc ttl)) (dict d) w in
        (r ≡ ok tt)
        × (h' : Hash) × (laws.view (node (text_of id)) v.redis ≡ hash h')
        × ((k t : String)
            → is_one_of k usage_fields ≡ true
            → hash_lookup k h ≡ some t
            → hash_lookup k h' ≡ some t)
  initialize_node-kept laws d id h m ttl w i v e =
      let k = node (text_of id) in
      let s = laws.write k (hash (hash_update h m)) w.redis in
      let (a, c, r, g, z, q) = mapping_of-node_mapping d h m e in
      rw (initialize_node_lem laws d id h m (pos (suc ttl)) w i v e) (
        refl,
        hash_update h m,
        laws.expire_lem k k ttl s ∙ laws.view-write_self k (hash (hash_update h m)) w.redis,
        λ f t o l. rw q (hash_lookup-mapping_of a c r g z f t h o l),
      )

  -- On a key that holds something other than a hash, a start raises Redis's refusal and changes
  -- nothing: the value is not overwritten.
  pub initialize_node-wrong_type :
      (laws : IsRedis) (d : Payload F) (id : Value F) (m : Hash) (ttl : ℤ) (w : World)
      → lookup "id" d ≡ some id
      → str_eq (type_entry (laws.view (node (text_of id)) w.redis)) "hash" ≡ false
      → str_eq (type_entry (laws.view (node (text_of id)) w.redis)) "none" ≡ false
      → node_mapping d [] ≡ ok m
      → initialize_node ttl (dict d) w ≡ (err wrong_type, w)
  unfolding initialize_node existing_hash
  initialize_node-wrong_type laws d id m ttl w i a b e =
      let k = node (text_of id) in
      let n : item "id" d ≡ ok id = ground arith in
      let t : str_eq (p.redis_type k w.redis) "hash" ≡ false =
        ap (λ x. str_eq x "hash") (laws.type_lem k w.redis) ∙ a in
      let s : p.redis_hset k m w.redis ≡ err wrong_type =
        laws.hset_lem k m w.redis
        ∙ ap (written (λ e. laws.write k e w.redis)) (hset_entry-refused m _ a b) in
      rw (n, t, e, s) refl
