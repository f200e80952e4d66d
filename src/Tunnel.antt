-- ===== src/Tunnel.antt =====
-- chisel/client.go: the client of the reverse tunnel.
use portainer_agent.Base.{Bool, true, false, Option, none, some}
use portainer_agent.Agent.{TunnelConfig}
use portainer_agent.Outside.{
  Outside, Calls, Error, perform, new_tunnel_client, start_tunnel_client, close_tunnel_client,
}

-- Client: the chisel client that was made last, by its configuration, and whether it was started.
pub record Client : Type 0 where
  pub chisel_client : Option TunnelConfig
  pub tunnel_open : Bool

unfoldable pub new_client : Client
new_client = record { chisel_client = none; tunnel_open = false }

unfoldable pub started : Client → Calls × Error → Client × Calls × Error
started c (calls, some e) = (c, calls, some e)
started c (calls, none) = (record c { tunnel_open = true }, calls, none)

unfoldable pub made : Outside → TunnelConfig → Client → Calls × Error → Client × Calls × Error
made out config c (calls, some e) = (c, calls, some e)
made out config c (calls, none) =
    started (record c { chisel_client = some config }) (perform out start_tunnel_client calls)

unfoldable pub create_tunnel : Outside → TunnelConfig → Client → Calls → Client × Calls × Error
create_tunnel out config c calls = made out config c (perform out (new_tunnel_client config) calls)

unfoldable pub close_tunnel : Outside → Client → Calls → Client × Calls × Error
close_tunnel out c calls =
    let (calls', e) = perform out close_tunnel_client calls in
    (record c { tunnel_open = false }, calls', e)
