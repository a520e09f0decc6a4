-- ===== src/Server/Main/Restart.antt =====
-- The main thread never takes back a wish to restart: what the steps of the worker assume of it.
use air_ctrl_desklet.Prelude.{List}
use air_ctrl_desklet.Automation.Types.{Env}
use air_ctrl_desklet.Server.State.{Server}
use air_ctrl_desklet.Server.Requests.Alive.{or-true}
use air_ctrl_desklet.Server.Device.{Restarting}
use air_ctrl_desklet.Server.Main.{Round, main_loop}
use air_ctrl_desklet.Server.Main.Keeps.{Everywhere, main_loop-keeps}
use air_ctrl_desklet.Server.Frame.Cases.{Unless}
use air_ctrl_desklet.Server.Frame.OfEngine.{Anything, anything}

abbrev restarting_everywhere :
    {S : Type 0} (env : Env S)
    → Everywhere env (λ s. Restarting s) (λ e. Anything e) (λ v. Anything v)
restarting_everywhere env = record {
  lasting = anything env;
  kept = record {
    good = λ s p. tt;
    engine = λ s e p g. p;
    deliver = λ s id f same p. p;
    release = λ s id p own. p;
    leave = λ s id p other. p;
    quit = λ s p. p;
  };
  queued = record { push = λ s c n r p. p; confirm = λ s o p. p };
  served = λ client. record {
    take = λ s p live. p;
    free = λ s p. p;
    restart = λ s p. or-true s.stopping;
  };
  reading = record { input = λ s id f p. p };
  aside = record {
    known = λ s n scheduled state problem p. p;
    written = λ s log reported p. p;
    received = λ s status p. p;
    taken = λ s p. p;
  };
  joined = λ s n clients p. p;
}

module _ {S : Type 0} (env : Env S) where
  -- If a restart of the session or the end of the server is wanted, it is still wanted after any rounds
  -- of the main loop, unless an uncaught exception has ended the process: only the worker itself clears
  -- the wish, when it begins a session.
  pub main_loop-Restarting :
      (rounds : List Round) (s : Server S)
      → Restarting s
      → Unless (λ t. Restarting t) (main_loop env rounds s)
  main_loop-Restarting =
      main_loop-keeps env (λ s. Restarting s) (λ e. Anything e) (λ v. Anything v)
        (restarting_everywhere env)
