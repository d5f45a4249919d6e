-- ===== src/Conversation/Gates.antt =====
-- The life of a conversation.
use edge_copilot_backend.Prelude.{List, [], ◌∷◌, ◌++◌, ◌≡◌, ◌≢◌, ◌↔◌, refl, ap, ◌∙◌, true, arith}
use edge_copilot_backend.Values.{DateTime}
use edge_copilot_backend.Errors.{ok}
use edge_copilot_backend.StateMachine.{allows, successors}
use edge_copilot_backend.Conversation.{
  ConversationState, created, active, idle, archived, conversation_transitions,
  conversation_state_enum, Conversation, transition_to,
}
use edge_copilot_backend.Conversation.History.{
  History, start, next, transition_to_inversion, transition_to_accepts,
}

-- A transition out of CREATED goes to ACTIVE.
created_to_active :
    (t : ConversationState) → allows conversation_transitions created t ≡ true → t ≡ active
unfolding successors
created_to_active active h = refl
created_to_active _ h = cc

not_into_created : (s : ConversationState) → allows conversation_transitions s created ≢ true
unfolding successors
not_into_created created h = cc
not_into_created _ h = cc

no_transition : {first c : Conversation} → History first c [] → c ≡ first
no_transition (start same' _) = same'
no_transition (next target now past h latest) = cc

-- The first transition of a conversation that began as CREATED is the one to ACTIVE.
first_transition :
    (first c : Conversation) (visited : List ConversationState)
    → first.state ≡ created
    → visited ≢ []
    → History first c visited
    → (later : List ConversationState) × (visited ≡ later ++ active ∷ [])
first_transition first c visited begun some' (start _ none') = absurd (some' none')
first_transition first c visited begun some'
      (next {before} {earlier = []} target now past h latest) =
    let same' = no_transition past in
    let allowed = (transition_to_inversion before target now h).0 in
    let from : before.state ≡ created = ap (λ (x : Conversation). x.state) same' ∙ begun in
    ([], latest ∙ ap (λ t. t ∷ []) (created_to_active target (rw from at allowed)))
first_transition first c visited begun some'
      (next {before} {earlier = s ∷ rest} target now past h latest) =
    let (later, same') = first_transition first before (s ∷ rest) begun (cc) past in
    (target ∷ later, latest ∙ ap (λ l. target ∷ l) same')

archived_refuses :
    (s t : ConversationState) → s ≡ archived → allows conversation_transitions s t ≢ true
unfolding successors
archived_refuses archived t ends h = cc
archived_refuses _ t ends h = cc

archived_of_refusal :
    (s : ConversationState)
    → s ≢ created
    → ((t : ConversationState) → allows conversation_transitions s t ≢ true)
    → s ≡ archived
unfolding successors
archived_of_refusal created activated refuses = absurd (activated refl)
archived_of_refusal active activated refuses = absurd (refuses archived refl)
archived_of_refusal idle activated refuses = absurd (refuses archived refl)
archived_of_refusal archived activated refuses = refl

-- What no transition of a conversation changes.
pub record SameConversation (a b : Conversation) : Type 0 where
  pub conversation_id : a.conversation_id ≡ b.conversation_id
  pub tenant_id : a.tenant_id ≡ b.tenant_id
  pub organization_id : a.organization_id ≡ b.organization_id
  pub channel : a.channel ≡ b.channel
  pub created_at : a.created_at ≡ b.created_at

-- Whatever transitions a conversation goes through, it keeps its identifier, its tenant and
-- organization, its channel, and its time of creation.
pub History-SameConversation :
    (first c : Conversation) (visited : List ConversationState)
    → History first c visited
    → SameConversation first c
History-SameConversation first c visited (start same' _) = ground arith
History-SameConversation first c visited (next {before} {earlier} target now past h _) = ground (
  arith,
  History-SameConversation first before earlier past,
  transition_to_inversion before target now h,
)

-- Of the conversations that are not CREATED, exactly the archived ones accept no transition.
pub archived_iff :
    (c : Conversation)
    → c.state ≢ created
    → (c.state ≡ archived) ↔ (
        (target : ConversationState) (now : DateTime) (c' : Conversation)
        → transition_to c target now ≢ ok c')
archived_iff c activated = (
  (λ ends target now c' h.
      archived_refuses c.state target ends (transition_to_inversion c target now h).0),
  (λ refuses.
      archived_of_refusal c.state activated (λ target h.
        refuses target c.updated_at _ (transition_to_accepts c target c.updated_at h))),
)
