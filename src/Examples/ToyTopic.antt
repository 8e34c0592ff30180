-- ===== src/Examples/ToyTopic.antt =====
-- A concrete test of a topic exchange: a pattern whose last character is "*" takes any one word
-- there, and "#" takes every key.
use Prim.Native.String.{String, ◌++◌}
use Prim.Native.Char.{code}
use text.Mathlib.TextLemmas.{nil-append, cons-append}
use cloud_multi_agent_manage.Prelude.{
  ◌≡◌, refl, ℕ, Bool, true, false, ◌&&◌, ◌||◌, ◌==◌, str_eq, arith, if◌then◌else◌,
}
use cloud_multi_agent_manage.Rabbit.Subscribed.{is_word, IsTopicMatch}

abbrev is_end : String → Bool
is_end String.[] = true
is_end (String.◌∷◌ c s) = false

abbrev topic_match : String → String → Bool
topic_match String.[] String.[] = true
topic_match String.[] (String.◌∷◌ d t) = false
topic_match (String.◌∷◌ c s) String.[] = code c == b'*' && is_end s
topic_match (String.◌∷◌ c s) (String.◌∷◌ d t) =
    let rest = topic_match s t in
    if code c == b'*' && is_end s then is_word (String.◌∷◌ d t) else code c == code d && rest

same : (n : ℕ) → (n == n) ≡ true
same n = ground arith

dotless : (n : ℕ) → (n == b'*') ≡ true → (n == b'.') ≡ false
dotless n h = ground arith

topic_match-exact : (k : String) → topic_match k k ≡ true
unfolding is_word
topic_match-exact String.[] = refl
topic_match-exact (String.◌∷◌ c String.[]) = ground (arith, same (code c), dotless (code c))
topic_match-exact (String.◌∷◌ c (String.◌∷◌ d s)) =
    ground (arith, same (code c), topic_match-exact (String.◌∷◌ d s))

topic_match-word : (w : String) → is_word w ≡ true → topic_match "*" w ≡ true
unfolding is_word
topic_match-word String.[] h = refl
topic_match-word (String.◌∷◌ d w) h = h

is_end-star : (k : String) → is_end (k ++ ".*") ≡ false
is_end-star String.[] = refl
is_end-star (String.◌∷◌ c k) = rw (cons-append c k ".*") refl

topic_match-star :
    (k w : String) → is_word w ≡ true → topic_match (k ++ ".*") (k ++ ("." ++ w)) ≡ true
topic_match-star String.[] w h =
    rw (nil-append ("." ++ w), cons-append "." "" w, nil-append w) (topic_match-word w h)
topic_match-star (String.◌∷◌ c k) w h =
    rw (cons-append c k ".*", cons-append c k ("." ++ w))
      (ground (arith, is_end-star k, same (code c), topic_match-star k w h))

-- The pattern "#" takes every key.
abbrev pub broker_match : String → String → Bool
broker_match k key = str_eq k "#" || topic_match k key

broker_match_of : (k key : String) → topic_match k key ≡ true → broker_match k key ≡ true
broker_match_of k key h = ground (arith, h)

pub toy-IsTopicMatch : IsTopicMatch broker_match
toy-IsTopicMatch = record {
  exact = λ k. broker_match_of k k (topic_match-exact k);
  star = λ k w h. broker_match_of (k ++ ".*") (k ++ ("." ++ w)) (topic_match-star k w h);
}
