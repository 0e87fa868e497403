-- ===== src/Agent/Graded.antt =====
-- A relation between what is before and after an action of the agent, graded by a number that adds up.
use droidcli.Common.{
  ℕ, suc, ◌+◌, ◌*◌, ◌≤◌, Bool, true, false, Option, none, some, List, [], ◌∷◌, ◌≡◌, refl, sym,
  subst, arith, Bytes, Bool-cases, inl, inr,
}
use droidcli.Ai.{ChatMessage, ChatResponse, OutboundRequest, user}
use droidcli.Agent.{
  AgentState, AgentConfig, Transport, Action, pure, continued, choose, get_state, modify, outside,
  observe, ◌>>=◌,
}
use droidcli.Agent.Templates.{try_template_reply}
use droidcli.Agent.Provider.{
  make_model_provider, build_request, ask, unless_blank, max_empty_retries, attempts,
  is_empty_answer, classify_via_llm, phrasing_prompt, phrase_via_llm, phrased, templated,
  phrase_result,
}

abbrev pub Graded : Type 0 → Type 1
Graded W = ℕ → AgentState × W → AgentState × W → Type 0

pub record IsGraded {W : Type 0} (R : Graded W) : Type 0 where
  pub stay : (n : ℕ) (x : AgentState × W) → R n x x
  pub chain : (a b n : ℕ) (x y z : AgentState × W) → a + b ≤ n → R a x y → R b y z → R n x z

module _ {W : Type 0} (R : Graded W) (g : IsGraded R) where
  -- An action whose outcome is related to its beginning.
  pub record Within (n : ℕ) {A : Type 0} (m : Action W A) : Type 0 where
    pub bound : (s : AgentState) (w : W) → R n (s, w) (m (s, w)).1

  bound_after :
      {A B : Type 0} (a b n : ℕ) (k : A → Action W B) (x : AgentState × W) (r : Option A)
      (t : AgentState × W)
      → a + b ≤ n
      → ((y : A) → Within b (k y))
      → R a x t
      → R n x (continued k r t).1
  bound_after a b n k x none t l h q = g.chain a b n x t t l q (g.stay b t)
  bound_after a b n k x (some y) (s, w) l h q =
      g.chain a b n x (s, w) (k y (s, w)).1 l q ((h y).bound s w)

  pub Within-bind :
      {A B : Type 0} (a b n : ℕ) (m : Action W A) (k : A → Action W B)
      → a + b ≤ n
      → Within a m
      → ((x : A) → Within b (k x))
      → Within n (m >>= k)
  Within-bind a b n m k l h q = record {
    bound = λ s w. bound_after a b n k (s, w) (m (s, w)).0 (m (s, w)).1 l q (h.bound s w);
  }

  pub Within-weaken : {A : Type 0} (a b : ℕ) (m : Action W A) → a ≤ b → Within a m → Within b m
  Within-weaken a b m l h = record {
    bound = λ s w.
        let t = (m (s, w)).1 in
        g.chain a 0 b (s, w) t t (omega (arith, l)) (h.bound s w) (g.stay 0 t);
  }

  pub Within-choose :
      {A : Type 0} (n : ℕ) (b : Bool) (m k : Action W A)
      → Within n m
      → Within n k
      → Within n (choose b m k)
  Within-choose n true m k h q = h
  Within-choose n false m k h q = q

  pub Within-pure : {A : Type 0} (n : ℕ) (x : A) → Within n (pure x)
  Within-pure n x = record { bound = λ s w. g.stay n (s, w) }

  pub Within-get_state : Within 0 get_state
  Within-get_state = record { bound = λ s w. g.stay 0 (s, w) }

  pub Within-observe : {A : Type 0} (f : W → A) → Within 0 (observe f)
  Within-observe f = record { bound = λ s w. g.stay 0 (s, w) }

  pub Within-modify :
      (f : AgentState → AgentState)
      → ((s : AgentState) (w : W) → R 0 (s, w) (f s, w))
      → Within 0 (modify f)
  Within-modify f h = record { bound = h }

  pub Within-outside :
      {A : Type 0} (n : ℕ) (f : W → Option A × W)
      → ((s : AgentState) (w : W) → R n (s, w) (s, (f w).1))
      → Within n (outside f)
  Within-outside n f h = record { bound = h }

-- What each request of a transport does.
abbrev pub PostWithin : {W : Type 0} → Graded W → ℕ → Option (Transport W) → Type 0
PostWithin R p none = Unit {0}
PostWithin {W = W} R p (some post) =
    (s : AgentState) (url body : Bytes) (w : W) → R p (s, w) (s, (post url body w).1)

module _ {W : Type 0} (R : Graded W) (g : IsGraded R) (p : ℕ) (s : AgentState) where
  ask_within :
      (post : Option (Transport W)) (request : OutboundRequest)
      → PostWithin R p post
      → (w : W) → R p (s, w) (s, (ask post request w).1)
  unfolding ask
  ask_within none request h w = g.stay p (s, w)
  ask_within (some post) request h w = h s request.url request.body w

  unless_blank_within :
      (b n : ℕ) (w : W) (blank : Bool) (again : W → Option ChatResponse × W)
      (answer : Option ChatResponse × W)
      → p + b ≤ n
      → ((v : W) → R b (s, v) (s, (again v).1))
      → R p (s, w) (s, answer.1)
      → R n (s, w) (s, (unless_blank blank again answer).1)
  unless_blank_within b n w true again (response, v) l h q =
      g.chain p b n (s, w) (s, v) (s, (again v).1) l q (h v)
  unless_blank_within b n w false again (response, v) l h q =
      g.chain p b n (s, w) (s, v) (s, v) l q (g.stay b (s, v))

  attempts_within :
      (k b n : ℕ) (post : Option (Transport W)) (request : OutboundRequest)
      → p + b ≤ n
      → PostWithin R p post
      → ((w : W) → R b (s, w) (s, (attempts k post request w).1))
      → (w : W) → R n (s, w) (s, (attempts (suc k) post request w).1)
  unfolding attempts
  attempts_within k b n post request l h q w =
      unless_blank_within b n w (is_empty_answer (ask post request w).0) (attempts k post request)
        (ask post request w) l q (ask_within post request h w)

  classify_attempts_within :
      (post : Option (Transport W)) (request : OutboundRequest)
      → PostWithin R p post
      → (w : W) → R (3 * p) (s, w) (s, (attempts max_empty_retries post request w).1)
  unfolding attempts
  classify_attempts_within post request h =
      attempts_within 1 (p + p) (3 * p) post request (omega arith) h
        (attempts_within 0 p (p + p) post request (omega arith) h (ask_within post request h))

  pub classify_via_llm_within :
      (config : AgentConfig) (post : Option (Transport W)) (transcript : List ChatMessage)
      → PostWithin R p post
      → (w : W) → R (3 * p) (s, w) (s, (classify_via_llm config post transcript w).1)
  unfolding classify_via_llm
  classify_via_llm_within config post transcript h w =
      let request = build_request (make_model_provider config) transcript config.tools in
      elim (Bool-cases request.valid) [
        | inl e ↦ rw e (classify_attempts_within post request h w)
        | inr e ↦ rw e (g.stay (3 * p) (s, w))
      ]

  phrased_same :
      (result_json : Bytes) (answer : Option ChatResponse × W)
      → (phrased result_json answer).1 ≡ answer.1
  phrased_same result_json (none, w) = refl
  phrased_same result_json (some response, w) = refl

  phrase_via_llm_within :
      (config : AgentConfig) (post : Option (Transport W)) (tool_name result_json : Bytes)
      → PostWithin R p post
      → (w : W) → R p (s, w) (s, (phrase_via_llm config post tool_name result_json w).1)
  unfolding phrase_via_llm
  phrase_via_llm_within config post tool_name result_json h w =
      let prompt : ChatMessage = record {
        role = user;
        content = phrasing_prompt tool_name result_json;
      } in
      let request = build_request (make_model_provider config) (prompt ∷ []) [] in
      elim (Bool-cases request.valid) [
        | inl e ↦ rw e (
            subst (λ v. R p (s, w) (s, v)) (sym (phrased_same result_json (ask post request w)))
              (ask_within post request h w))
        | inr e ↦ rw e (g.stay p (s, w))
      ]

  templated_within :
      (o : Option Bytes) (otherwise : W → Option Bytes × W)
      → ((w : W) → R p (s, w) (s, (otherwise w).1))
      → (w : W) → R p (s, w) (s, (templated o otherwise w).1)
  templated_within none otherwise h w = g.stay p (s, w)
  templated_within (some []) otherwise h w = h w
  templated_within (some (c ∷ text)) otherwise h w = g.stay p (s, w)

  pub phrase_result_within :
      (config : AgentConfig) (post : Option (Transport W))
      (tool_name arguments_json result_json : Bytes)
      → PostWithin R p post
      → (w : W)
      → R p (s, w) (s, (phrase_result config post tool_name arguments_json result_json w).1)
  unfolding phrase_result
  phrase_result_within config post tool_name arguments_json result_json h =
      templated_within (try_template_reply tool_name arguments_json result_json)
        (phrase_via_llm config post tool_name result_json)
        (phrase_via_llm_within config post tool_name result_json h)
