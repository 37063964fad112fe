-- ===== src/NnsNeurons/Following.antt =====
-- frontend/src/lib/utils/neuron.utils.ts, `followeesNeurons`: from the followees by topic to the
-- topics by followee.
use nns_dapp.Common.{
  ℕ, ◌≡◌, refl, sym, ◌∙◌, ap, inl, inr, nat_has_eq, eq_of_eqb, Option, none, some, List, [], ◌∷◌,
  ◌++◌, append_assoc, append-nil, map, ◌==◌, contains, Distinct, Distinct-snoc, if◌then◌else◌,
  Bool-cases, arith,
}
use nns_dapp.NnsNeurons.{Followees, Neuron, NeuronInfo}

pub record FolloweesNeuron : Type 0 where
  pub neuron_id : ℕ
  pub topics : List ℕ

abbrev with_topic : ℕ → FolloweesNeuron → FolloweesNeuron
with_topic topic f = record f { topics = f.topics ++ topic ∷ [] }

-- `resultNeuron(neuronId)` and what is pushed: to its topics, or as a new entry
push_topic : ℕ → ℕ → List FolloweesNeuron → List FolloweesNeuron
push_topic topic neuron_id [] = record { neuron_id = neuron_id; topics = topic ∷ [] } ∷ []
push_topic topic neuron_id (f ∷ result) =
    let rest = push_topic topic neuron_id result in
    if f.neuron_id == neuron_id then with_topic topic f ∷ result else f ∷ rest

-- the inner loop, over the followees of one topic
push_followees : ℕ → List ℕ → List FolloweesNeuron → List FolloweesNeuron
unfolding push_topic
push_followees topic [] result = result
push_followees topic (neuron_id ∷ followees) result =
    push_followees topic followees (push_topic topic neuron_id result)

push_all : List Followees → List FolloweesNeuron → List FolloweesNeuron
unfolding push_followees
push_all [] result = result
push_all (f ∷ fs) result = push_all fs (push_followees f.topic f.followees result)

abbrev pub followees_of : Option Neuron → List Followees
followees_of none = []
followees_of (some n) = n.followees

unfoldable pub followees_neurons : NeuronInfo → List FolloweesNeuron
unfolding push_all
followees_neurons neuron = push_all (followees_of neuron.full_neuron) []

-- the topics that a result lists for a neuron
unfoldable pub topics_for : ℕ → List FolloweesNeuron → List ℕ
topics_for i [] = []
topics_for i (f ∷ result) = if f.neuron_id == i then f.topics else topics_for i result

-- the topics in which a neuron is followed, once for each time that it is named
topic_if : ℕ → ℕ → List ℕ → List ℕ
topic_if topic i [] = []
topic_if topic i (j ∷ followees) =
    if j == i then topic ∷ topic_if topic i followees else topic_if topic i followees

unfoldable pub followed_topics : ℕ → List Followees → List ℕ
unfolding topic_if
followed_topics i [] = []
followed_topics i (f ∷ fs) = topic_if f.topic i f.followees ++ followed_topics i fs

topics_for-push_topic :
    (i topic j : ℕ) (result : List FolloweesNeuron)
    → topics_for i (push_topic topic j result)
      ≡ (if j == i then topics_for i result ++ topic ∷ [] else topics_for i result)
unfolding push_topic topics_for
topics_for-push_topic i topic j [] = ground arith
topics_for-push_topic i topic j (f ∷ result) = ground (
  arith,
  topics_for-push_topic i topic j result,
  eq_of_eqb f.neuron_id j,
  eq_of_eqb j i,
  eq_of_eqb f.neuron_id i,
)

topics_for-push_followees :
    (i topic : ℕ) (js : List ℕ) (result : List FolloweesNeuron)
    → topics_for i (push_followees topic js result) ≡ topics_for i result ++ topic_if topic i js
unfolding push_followees topic_if
topics_for-push_followees i topic [] result = sym (append-nil (topics_for i result))
topics_for-push_followees i topic (j ∷ js) result =
    topics_for-push_followees i topic js (push_topic topic j result) ∙ elim (Bool-cases (j == i)) [
      | inl e ↦
          rw (topics_for-push_topic i topic j result, e)
            (append_assoc (topics_for i result) (topic ∷ []) (topic_if topic i js))
      | inr e ↦ rw (topics_for-push_topic i topic j result, e)
    ]

topics_for-push_all :
    (i : ℕ) (fs : List Followees) (result : List FolloweesNeuron)
    → topics_for i (push_all fs result) ≡ topics_for i result ++ followed_topics i fs
unfolding push_all followed_topics
topics_for-push_all i [] result = sym (append-nil (topics_for i result))
topics_for-push_all i (f ∷ fs) result =
    topics_for-push_all i fs (push_followees f.topic f.followees result)
    ∙ ap (λ l. l ++ followed_topics i fs) (topics_for-push_followees i f.topic f.followees result)
    ∙ append_assoc (topics_for i result) (topic_if f.topic i f.followees) (followed_topics i fs)

-- `followeesNeurons` lists for each neuron the topics in which it is followed, in the order of
-- the followees and once for each time that a topic names it.
pub topics_for-followees_neurons :
    (i : ℕ) (neuron : NeuronInfo)
    → topics_for i (followees_neurons neuron) ≡ followed_topics i (followees_of neuron.full_neuron)
unfolding followees_neurons topics_for
topics_for-followees_neurons i neuron = topics_for-push_all i (followees_of neuron.full_neuron) []

abbrev followee_ids : List FolloweesNeuron → List ℕ
followee_ids result = map (λ f. f.neuron_id) result

ids-push_topic :
    (topic j : ℕ) (result : List FolloweesNeuron)
    → followee_ids (push_topic topic j result) ≡ (
        if contains (followee_ids result) j
        then followee_ids result
        else followee_ids result ++ j ∷ [])
unfolding push_topic
ids-push_topic topic j [] = refl
ids-push_topic topic j (f ∷ result) = ground (arith, ids-push_topic topic j result)

push_topic-Distinct :
    (topic j : ℕ) (result : List FolloweesNeuron)
    → Distinct (followee_ids result)
    → Distinct (followee_ids (push_topic topic j result))
push_topic-Distinct topic j result d =
    rw (ids-push_topic topic j result) elim (Bool-cases (contains (followee_ids result) j)) [
      | inl e ↦ rw e d
      | inr e ↦ rw e (Distinct-snoc (followee_ids result) j d e)
    ]

push_followees-Distinct :
    (topic : ℕ) (js : List ℕ) (result : List FolloweesNeuron)
    → Distinct (followee_ids result)
    → Distinct (followee_ids (push_followees topic js result))
unfolding push_followees
push_followees-Distinct topic [] result d = d
push_followees-Distinct topic (j ∷ js) result d =
    push_followees-Distinct topic js (push_topic topic j result)
      (push_topic-Distinct topic j result d)

push_all-Distinct :
    (fs : List Followees) (result : List FolloweesNeuron)
    → Distinct (followee_ids result)
    → Distinct (followee_ids (push_all fs result))
unfolding push_all
push_all-Distinct [] result d = d
push_all-Distinct (f ∷ fs) result d =
    push_all-Distinct fs (push_followees f.topic f.followees result)
      (push_followees-Distinct f.topic f.followees result d)

-- `followeesNeurons` has one entry for each neuron.
followees_neurons-Distinct :
    (neuron : NeuronInfo) → Distinct (followee_ids (followees_neurons neuron))
unfolding followees_neurons
followees_neurons-Distinct neuron = push_all-Distinct (followees_of neuron.full_neuron) [] tt
