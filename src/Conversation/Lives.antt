-- ===== src/Conversation/Lives.antt =====
-- Which sequences of transitions a conversation can go through.
use edge_copilot_backend.Prelude.{
  ℕ, zero, suc, List, [], ◌∷◌, ◌≡◌, ◌↔◌, ◌⊎◌, inl, inr, refl, ap, ◌∙◌, sym, true,
}
use edge_copilot_backend.StateMachine.{allows, successors}
use edge_copilot_backend.Conversation.{
  ConversationState, created, active, idle, archived, conversation_transitions,
  conversation_state_enum, Conversation,
}
use edge_copilot_backend.Conversation.History.{
  History, start, next, transition_to_inversion, transition_to_accepts,
}

-- A conversation that became active, and then idle and active again `n` times; the last comes first.
abbrev pub turns : ℕ → List ConversationState
turns zero = active ∷ []
turns (suc n) = active ∷ idle ∷ turns n

-- The sequences that lead a conversation to a state: none; some turns; these and then idle; and after
-- an active or an idle state the archive, as the end.
abbrev pub LeadsTo : ConversationState → List ConversationState → Type 0
LeadsTo created visited = visited ≡ []
LeadsTo active visited = (n : ℕ) × (visited ≡ turns n)
LeadsTo idle visited = (n : ℕ) × (visited ≡ idle ∷ turns n)
LeadsTo archived visited =
    (n : ℕ) × ((visited ≡ archived ∷ turns n) ⊎ (visited ≡ archived ∷ idle ∷ turns n))

LeadsTo-step :
    (s t : ConversationState) (visited : List ConversationState)
    → LeadsTo s visited
    → allows conversation_transitions s t ≡ true
    → LeadsTo t (t ∷ visited)
unfolding successors
LeadsTo-step created active v e h = (0, ap (λ l. active ∷ l) e)
LeadsTo-step active idle v (n, e) h = (n, ap (λ l. idle ∷ l) e)
LeadsTo-step active archived v (n, e) h = (n, inl (ap (λ l. archived ∷ l) e))
LeadsTo-step idle active v (n, e) h = (suc n, ap (λ l. active ∷ l) e)
LeadsTo-step idle archived v (n, e) h = (n, inr (ap (λ l. archived ∷ l) e))
LeadsTo-step _ _ v l h = cc

-- Every accepted sequence is one of these.
History-LeadsTo :
    {first c : Conversation} {visited : List ConversationState}
    → first.state ≡ created
    → History first c visited
    → LeadsTo c.state visited
History-LeadsTo begun (start same' none') =
    rw (ap (λ (x : Conversation). x.state) same' ∙ begun) none'
History-LeadsTo begun (next {before} {earlier} target now past h latest) =
    let (allowed, result) = transition_to_inversion before target now h in
    rw (latest, ap (λ (x : Conversation). x.state) result)
      (LeadsTo-step before.state target earlier (History-LeadsTo begun past) allowed)

-- A conversation that stands in the state `s` comes from `first` by the sequence.
abbrev pub Lived : Conversation → ConversationState → List ConversationState → Type 0
Lived first s visited = (c : Conversation) × (c.state ≡ s) × History first c visited

module _ (first : Conversation) (begun : first.state ≡ created) where
  Lived-next :
      (s t : ConversationState) (visited : List ConversationState)
      → allows conversation_transitions s t ≡ true
      → Lived first s visited
      → Lived first t (t ∷ visited)
  Lived-next s t visited allowed (c, at, past) =
      let now = c.created_at in
      (
        record c { state = t; updated_at = now },
        refl,
        next t now past (transition_to_accepts c t now (rw at allowed)) refl,
      )

  Lived-turns : (n : ℕ) → Lived first active (turns n)
  unfolding successors
  Lived-turns zero = Lived-next created active [] refl (first, begun, start refl refl)
  Lived-turns (suc n) =
      Lived-next idle active _ refl (Lived-next active idle _ refl (Lived-turns n))

  Lived-LeadsTo :
      (s : ConversationState) (visited : List ConversationState)
      → LeadsTo s visited
      → Lived first s visited
  unfolding successors
  Lived-LeadsTo created v e = (first, begun, start refl e)
  Lived-LeadsTo active v (n, e) = rw e (Lived-turns n)
  Lived-LeadsTo idle v (n, e) = rw e (Lived-next active idle _ refl (Lived-turns n))
  Lived-LeadsTo archived v (n, inl e) = rw e (Lived-next active archived _ refl (Lived-turns n))
  Lived-LeadsTo archived v (n, inr e) =
      rw e (Lived-next idle archived _ refl (Lived-next active idle _ refl (Lived-turns n)))

-- A conversation that began as CREATED can come to a state by a sequence of transitions exactly when
-- the sequence is empty and the state is CREATED; or the conversation became ACTIVE, and any number of
-- times IDLE and ACTIVE again, and then stayed, became IDLE, or was ARCHIVED from one of these two,
-- as its last transition.
pub lives_iff :
    (first : Conversation) (s : ConversationState) (visited : List ConversationState)
    → first.state ≡ created
    → Lived first s visited ↔ LeadsTo s visited
lives_iff first s visited begun = (
  (λ (c, at, past). rw (sym at) (History-LeadsTo begun past)),
  Lived-LeadsTo first begun s visited,
)
