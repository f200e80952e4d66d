-- ===== src/Stack/Deployments.antt =====
-- deployStack: what the deployer's answer makes of the stack and of the report to the server.
use portainer_agent.Base.{
  ℕ, ◌≡◌, ◌≢◌, refl, ◌∙◌, none, some, [], ◌∷◌, insert, lookup, lookup-insert_self, lookup-insert_ne,
}
use portainer_agent.Outside.{
  Outside, Call, Error, StatusType, deployer_deploy, set_edge_stack_status,
}
use portainer_agent.Stack.{EdgeStack, EdgeStackStatus, StackManager, deploying, done, idle}
use portainer_agent.Stack.Worker.{deploy_stack, deployed, stack_name, stack_file_location}

abbrev pub deploy_call : EdgeStack → Call
deploy_call s = deployer_deploy (stack_name s) (stack_file_location s) s.namespace

-- The status of the stack and the report that follow the deployer's answer.
abbrev pub deployed_status : Error → EdgeStackStatus
deployed_status none = done
deployed_status (some e) = EdgeStackStatus.error

abbrev pub deployed_report : ℕ → Error → Call
deployed_report id none = set_edge_stack_status id StatusType.ok []
deployed_report id (some e) = set_edge_stack_status id StatusType.failed e

abbrev pub deployed_stack : EdgeStack → Error → EdgeStack
deployed_stack s e = record s { status = deployed_status e; action = idle }

pub record IsDeployed (s : EdgeStack) (m m' : StackManager) (e : Error) : Type 0 where
  pub finished : lookup s.id m'.stacks ≡ some (deployed_stack s e)
  pub reported : m'.calls ≡ deployed_report s.id e ∷ deploy_call s ∷ m.calls
  pub others : (j : ℕ) → s.id ≢ j → lookup j m'.stacks ≡ lookup j m.stacks

deployed-IsDeployed :
    (out : Outside) (s : EdgeStack) (m : StackManager) (e : Error)
    → IsDeployed s m
        (deployed out
          (record s { status = deploying; action = idle })
          (record m {
            stacks = insert s.id (record s { status = deploying; action = idle }) m.stacks;
            calls = deploy_call s ∷ m.calls;
          })
          e)
        e
unfolding deployed
deployed-IsDeployed out s m none = record {
  finished = lookup-insert_self s.id _ _;
  reported = refl;
  others = λ j n. lookup-insert_ne s.id j _ _ n ∙ lookup-insert_ne s.id j _ m.stacks n;
}
deployed-IsDeployed out s m (some e) = record {
  finished = lookup-insert_self s.id _ _;
  reported = refl;
  others = λ j n. lookup-insert_ne s.id j _ _ n ∙ lookup-insert_ne s.id j _ m.stacks n;
}

-- A deployment makes one call of the deployer and one report. It leaves the stack idle, `done` and
-- reported as ok if the call succeeded, `error` and reported as failed with the deployer's message
-- if not, and leaves every other stack alone.
pub deploy_stack-IsDeployed :
    (out : Outside) (s : EdgeStack) (m : StackManager)
    → IsDeployed s m (deploy_stack out s m) (out.fails m.calls (deploy_call s))
unfolding deploy_stack
deploy_stack-IsDeployed out s m = deployed-IsDeployed out s m (out.fails m.calls (deploy_call s))
