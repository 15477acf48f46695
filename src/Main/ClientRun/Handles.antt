-- ===== src/Main/ClientRun/Handles.antt =====
-- The pointers that a run of the client gives to uvgRTP (src/main.cpp).
use audpipe_cpp.Prelude.{if_both, sym, subst, Bool, true, false}
use audpipe_cpp.Rtp.Library.{Log}
use audpipe_cpp.Rtp.Handles.{IsSafe}
use audpipe_cpp.Client.State.{request_shutdown, stop_rtp}
use audpipe_cpp.Client.Playback
use audpipe_cpp.Client.Connect
use audpipe_cpp.Client.Connect.{World, Outcome}
use audpipe_cpp.Client.Connect.Handles.{
  MemberUsable, MemberUsable-IsSafe, stop_rtp-MemberUsable, ClientLeaves,
}
use audpipe_cpp.Backend.VirtualInput
use audpipe_cpp.Client.Life
use audpipe_cpp.Client.Life.{Living}
use audpipe_cpp.Main.ClientRun
use audpipe_cpp.Main.ClientRun.Ending.{wait_loop-rtp, starting}

module _ (lib : Playback.Opus) where
  shut_down-IsSafe :
      (input : VirtualInput.Ending) (l : Living lib) (log : Log)
      → MemberUsable l.client.rtp log
      → IsSafe (ClientRun.shut_down lib input l log).1
  unfolding ClientRun.shut_down request_shutdown Life.destroy
  shut_down-IsSafe input l log v =
      let (rtp, log') = stop_rtp l.client.rtp log in
      let (rtp', log'') = stop_rtp rtp log' in
      let stopped = stop_rtp-MemberUsable l.client.rtp log v in
      if_both (λ (end : Bool × Log). IsSafe (ClientRun.exit_with lib end).1) (Life.is_over input)
        (MemberUsable-IsSafe rtp' log'' (stop_rtp-MemberUsable rtp log' stopped))
        (MemberUsable-IsSafe rtp log' stopped)

  end_loop-IsSafe :
      (input : VirtualInput.Ending) (ended : Bool) (l : Living lib) (log : Log)
      → MemberUsable l.client.rtp log
      → IsSafe (ClientRun.end_loop lib input (ended, l) log).1
  end_loop-IsSafe input false l log v = MemberUsable-IsSafe l.client.rtp log v
  end_loop-IsSafe input true l log v = shut_down-IsSafe input l log v

  pub client-IsSafe :
      (script : ClientRun.Script lib) (o : Outcome)
      → ClientLeaves o
      → IsSafe (ClientRun.after_construction lib script o).1
  unfolding ClientRun.after_construction
  client-IsSafe script (Connect.threw failure w) safe = safe
  client-IsSafe script (Connect.aborted w) safe = safe
  client-IsSafe script (Connect.constructed c w) v =
      let l = starting lib script c w in
      let (ended, end) = ClientRun.wait_loop lib script.turns l in
      end_loop-IsSafe (ClientRun.input_ending lib script w) ended end w.log
        (subst (λ rtp. MemberUsable rtp w.log) (sym (wait_loop-rtp lib script.turns l)) v)
